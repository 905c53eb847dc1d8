-- ===== src/Priority/RoundTrip.antt =====
-- What `mysetnice` of exam1/sys.c returns, and what it gives back of a value that it has set.
use hdu_os_experiment.Common.{
  ℤ, pos, ℕ, zero, suc, ◌-◌, ◌<◌, ◌≡◌, ◌≢◌, ◌⊎◌, refl, arith, Bool, true, false, ◌&&◌, not, Option,
  none, some, ltb, ◌==◌, Bool-cases, inl, inr, ◌∙◌, sym, ap,
}
use hdu_os_experiment.Priority.{
  esrch, efault, minus, Nice, Kernel, SetsNice, set_one_prio_perm, set_one_prio, set_each,
  normalize, task_of, tasks_of, raise, get_each, got, set, sys_setpriority, sys_getpriority,
  mysetnice,
}
use hdu_os_experiment.Priority.Permission.{normalize-range}

-- `set_one_prio` has set the value, or has an error and has set nothing.
abbrev Outcome : Nice → Nice → ℕ × Nice → Type 0
Outcome nice nice' (error, r) =
    ((error ≡ 0) × (r ≡ nice')) ⊎ (((e : ℕ) × (error ≡ suc e)) × (r ≡ nice))

set_one_prio-Outcome :
    (k : Kernel) (nice : Nice) (p n : ℕ)
    → Outcome nice (k.set_user_nice nice p n) (set_one_prio k nice p n esrch)
unfolding set_one_prio
set_one_prio-Outcome k nice p n = elim (Bool-cases (set_one_prio_perm k p)) [
  | inr denied ↦ rw denied (inr ((0, refl), refl))
  | inl perm ↦ elim (Bool-cases (ltb n (nice p) && not (k.can_nice p n))) [
    | inl low ↦ rw (perm, low) (inr ((12, refl), refl))
    | inr fair ↦ elim (Bool-cases (k.security_task_setnice p n == 0)) [
      | inr refused ↦
          rw (perm, fair, refused) (inr (positive (k.security_task_setnice p n) refused, refl))
      | inl allowed ↦ rw (perm, fair, allowed) (inl (refl, refl))
    ]
  ]
]
  where
    positive : (e : ℕ) → (e == 0) ≡ false → (e' : ℕ) × (e ≡ suc e')
    positive zero h = absurd (ground arith)
    positive (suc e) h = (e, refl)

-- What `mysetnice` with the flag 1 leaves: it returns 0, there is a task of that number, and its nice
-- value is the one asked for, brought into range; or it returns `EFAULT`, and has set nothing.
abbrev pub SetsOrFails : Option ℕ → Nice → ℤ → ℤ × Nice → Type 0
SetsOrFails o nice v (res, nice') =
    ((res ≡ pos 0)
      × ((p : ℕ) × (o ≡ some p) × (nice' p ≡ normalize v) × ((q : ℕ) → q ≢ p → nice' q ≡ nice q)))
    ⊎ ((res ≡ pos efault) × (nice' ≡ nice))

SetsOrFails-Outcome :
    (k : Kernel) (nice : Nice) (v : ℤ) (p : ℕ) (r : ℕ × Nice)
    → SetsNice k
    → Outcome nice (k.set_user_nice nice p (normalize v)) r
    → SetsOrFails (some p) nice v (set (minus r.0), r.1)
SetsOrFails-Outcome k nice v p (error, r) law (inl (e, same)) = inl (
  ap set (ap minus e),
  (
    p,
    refl,
    rw same (law.sets nice p (normalize v) (normalize-range v)),
    λ q h. rw same (law.keeps nice p (normalize v) q h),
  ),
)
SetsOrFails-Outcome k nice v p (error, r) law (inr ((e', e), same)) =
    inr (ap set (ap minus e), same)

-- `mysetnice` with the flag 1 returns 0 exactly if it has set the nice value, brought between -20 and
-- 19, of the task of that number and of no other; otherwise it returns `EFAULT`, and no nice value has
-- changed.
pub mysetnice-SetsOrFails :
    (k : Kernel) (nice : Nice) (pid v : ℤ)
    → SetsNice k
    → SetsOrFails (task_of k pid) nice v (mysetnice k nice pid (pos 1) v)
unfolding mysetnice sys_setpriority tasks_of set_each
mysetnice-SetsOrFails k nice pid v law = by_task (task_of k pid) refl
  where
    by_task :
        (o : Option ℕ)
        → task_of k pid ≡ o
        → SetsOrFails (task_of k pid) nice v (mysetnice k nice pid (pos 1) v)
    by_task none e = rw (mysetnice, sys_setpriority, tasks_of, e) (inr (refl, refl))
    by_task (some p) e =
        rw (mysetnice, sys_setpriority, tasks_of, e)
          (SetsOrFails-Outcome k nice v p _ law (set_one_prio-Outcome k nice p (normalize v)))

mysetnice-found :
    (k : Kernel) (nice : Nice) (pid v : ℤ) (p : ℕ)
    → task_of k pid ≡ some p
    → nice p < 40
    → mysetnice k nice pid (pos 0) v ≡ (pos (40 - nice p), nice)
unfolding mysetnice sys_getpriority tasks_of get_each raise
mysetnice-found k nice pid v p e h =
    rw (mysetnice, sys_getpriority, tasks_of, e)
      (ap (λ x. (x, nice)) (got-positive (40 - nice p) (omega arith)))
  where
    got-positive : (n : ℕ) → n ≢ 0 → got (pos n) ≡ pos n
    got-positive zero h = absurd (h refl)
    got-positive (suc n) h = refl

-- After a call with the flag 1 that has returned 0, a call with the flag 0 for the same number returns
-- 20 less the nice value that was asked for, brought between -20 and 19, and changes nothing.
pub mysetnice-set-get :
    (k : Kernel) (nice : Nice) (pid v v' : ℤ)
    → SetsNice k
    → (mysetnice k nice pid (pos 1) v).0 ≡ pos 0
    → mysetnice k (mysetnice k nice pid (pos 1) v).1 pid (pos 0) v'
      ≡ (pos (40 - normalize v), (mysetnice k nice pid (pos 1) v).1)
mysetnice-set-get k nice pid v v' law good = elim (mysetnice-SetsOrFails k nice pid v law) [
  | inl (zeroed, (p, at, now, others)) ↦
      mysetnice-found k _ pid v' p at (rw now (normalize-range v))
      ∙ ap (λ n. (pos (40 - n), (mysetnice k nice pid (pos 1) v).1)) now
  | inr (failed, same) ↦ absurd (differ (sym failed ∙ good))
]
  where
    is_zero : ℤ → Bool
    is_zero (pos zero) = true
    is_zero z = false

    differ : pos efault ≡ pos 0 → ⊥
    differ e = cc (ap is_zero e)
