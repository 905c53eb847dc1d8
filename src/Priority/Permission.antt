-- ===== src/Priority/Permission.antt =====
-- What `setpriority` of exam1/sys.c leaves alone.
use hdu_os_experiment.Common.{
  ℤ, pos, negsuc, ℕ, ◌<◌, ◌≤◌, ◌≡◌, refl, arith, true, false, ◌&&◌, not, Option, none, some, List,
  [], ◌∷◌, ltb, ◌==◌, Bool-cases, inl, inr, ◌∙◌,
}
use hdu_os_experiment.Priority.{
  esrch, Nice, Kernel, SetsNice, set_one_prio_perm, set_one_prio, set_each, normalize, tasks_of,
  sys_setpriority,
}

pub normalize-range : (v : ℤ) → normalize v < 40
unfolding normalize
normalize-range (pos n) = ground arith
normalize-range (negsuc n) = ground arith

-- What may become of a task: nothing without permission, and no lower nice value unless `can_nice`
-- allows one.
pub record Guarded (k : Kernel) (nice nice' : Nice) (q : ℕ) : Type 0 where
  pub owned : set_one_prio_perm k q ≡ false → nice' q ≡ nice q
  pub not_lower : ((n : ℕ) → k.can_nice q n ≡ false) → nice q ≤ nice' q

module _ (k : Kernel) (law : SetsNice k) (q : ℕ) where
  Guarded-same : (nice : Nice) → Guarded k nice nice q
  Guarded-same nice = record { owned = λ h. refl; not_lower = λ h. omega arith }

  Guarded-set :
      (nice : Nice) (p n : ℕ)
      → n < 40
      → set_one_prio_perm k p ≡ true
      → ltb n (nice p) && not (k.can_nice p n) ≡ false
      → Guarded k nice (k.set_user_nice nice p n) q
  Guarded-set nice p n h perm fair = elim (Bool-cases (q == p)) [
    | inl same ↦ record {
      owned = λ hyp. ground arith;
      not_lower = λ hyp. ground (arith, law.sets nice p n h, hyp n);
    }
    | inr other ↦
        let kept = law.keeps nice p n q (ground arith) in
        record { owned = λ hyp. kept; not_lower = λ hyp. omega (arith, kept) }
  ]

  set_one_prio-Guarded :
      (nice : Nice) (p n error : ℕ) → n < 40 → Guarded k nice (set_one_prio k nice p n error).1 q
  unfolding set_one_prio
  set_one_prio-Guarded nice p n error h = elim (Bool-cases (set_one_prio_perm k p)) [
    | inr denied ↦ rw denied (Guarded-same nice)
    | inl perm ↦ elim (Bool-cases (ltb n (nice p) && not (k.can_nice p n))) [
      | inl low ↦ rw (perm, low) (Guarded-same nice)
      | inr fair ↦ elim (Bool-cases (k.security_task_setnice p n == 0)) [
        | inr refused ↦ rw (perm, fair, refused) (Guarded-same nice)
        | inl allowed ↦ rw (perm, fair, allowed) (Guarded-set nice p n h perm fair)
      ]
    ]
  ]

  set_each-Guarded :
      (ps : List ℕ) (nice : Nice) (n error : ℕ)
      → n < 40
      → Guarded k nice (set_each k nice ps n error).1 q
  unfolding set_each
  set_each-Guarded [] nice n error h = Guarded-same nice
  set_each-Guarded (p ∷ ps) nice n error h =
      let one = set_one_prio k nice p n error in
      let first = set_one_prio-Guarded nice p n error h in
      let rest = set_each-Guarded ps one.1 n one.0 h in
      record {
        owned = λ hyp. rest.owned hyp ∙ first.owned hyp;
        not_lower = λ hyp. omega (arith, first.not_lower hyp, rest.not_lower hyp);
      }

-- Whatever tasks `setpriority` is asked for, it leaves alone the nice value of a task for which the
-- caller has no permission, and does not lower one that `can_nice` never allows to be lowered.
pub sys_setpriority-Guarded :
    (k : Kernel) (nice : Nice) (which who niceval : ℤ) (q : ℕ)
    → SetsNice k
    → Guarded k nice (sys_setpriority k nice which who niceval).1 q
unfolding sys_setpriority
sys_setpriority-Guarded k nice which who niceval q law = by_tasks (tasks_of k which who) refl
  where
    by_tasks :
        (o : Option (List ℕ))
        → tasks_of k which who ≡ o
        → Guarded k nice (sys_setpriority k nice which who niceval).1 q
    by_tasks none e = rw (sys_setpriority, e) (Guarded-same k law q nice)
    by_tasks (some ps) e =
        rw (sys_setpriority, e)
          (set_each-Guarded k law q ps nice (normalize niceval) esrch (normalize-range niceval))
