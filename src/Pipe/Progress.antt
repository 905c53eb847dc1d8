-- ===== src/Pipe/Progress.antt =====
-- While the processes of exam4/3/pipe.c have not ended, one of them can go on.
use hdu_os_experiment.Common.{
  ℕ, ◌+◌, ◌<◌, ◌≤◌, ◌≡◌, ◌⊎◌, refl, arith, true, false, some, List, [], ◌∷◌, ◌==◌, length,
  length-append, Bool-cases, inl, inr, ◌∙◌, ap,
}
use hdu_os_experiment.Pipe.{
  Who, child1, child2, child3, same, message, Child, unborn, closing, printing, writing, exiting,
  exited, Parent, State, read_pipe, read_buf, parent_step, child_step, Step, by_parent, by_child,
}
use hdu_os_experiment.Pipe.Invariant.{
  bytes, count, wrote, is_born, forked, reads, Inv, read_pipe-bytes,
}

count-all : (ks : List Who) → count child1 ks + (count child2 ks + count child3 ks) ≡ length ks
unfolding same
count-all [] = refl
count-all (child1 ∷ ks) = omega (arith, count-all ks)
count-all (child2 ∷ ks) = omega (arith, count-all ks)
count-all (child3 ∷ ks) = omega (arith, count-all ks)

-- A child that has written is at its `exit` or after it.
pub child-exiting : (c : Child) → wrote c ≡ 1 → (c ≡ exiting) ⊎ (c ≡ exited)
child-exiting unborn w = cc
child-exiting closing w = cc
child-exiting printing w = cc
child-exiting writing w = cc
child-exiting exiting w = inl refl
child-exiting exited w = inr refl

wrote-once : (c : Child) → wrote c ≤ 1
wrote-once unborn = omega arith
wrote-once closing = omega arith
wrote-once printing = omega arith
wrote-once writing = omega arith
wrote-once exiting = omega arith
wrote-once exited = omega arith

module _ (s : State) (i : Inv s) where
  abbrev pub GoesOn : Type 0
  GoesOn = (t : State) × Step s t

  total :
      wrote (s.children child1) + (wrote (s.children child2) + wrote (s.children child3))
      ≡ length i.got + length i.rest
  total = omega (
    arith,
    i.counted child1,
    i.counted child2,
    i.counted child3,
    count-all s.written,
    ap length i.written ∙ length-append i.got i.rest,
  )

  -- A child that was forked and has not written can go on.
  writes : (k : Who) (c : Child) → s.children k ≡ c → is_born c ≡ true → wrote c ≡ 0 → GoesOn
  unfolding child_step
  writes k unborn e b w = cc
  writes k closing e b w = (_, by_child k (ap (λ c. child_step c k s) e))
  writes k printing e b w = (_, by_child k (ap (λ c. child_step c k s) e))
  writes k writing e b w = (_, by_child k (ap (λ c. child_step c k s) e))
  writes k exiting e b w = cc
  writes k exited e b w = cc

  pub exits : (k : Who) → s.children k ≡ exiting → GoesOn
  unfolding child_step
  exits k e = (_, by_child k (ap (λ c. child_step c k s) e))

  -- While fewer than three have written, and all are forked, one of them can go on.
  one_writes : ((k : Who) → forked s.parent k ≡ true) → length i.got + length i.rest < 3 → GoesOn
  one_writes f h =
      by_first (Bool-cases (w child1 == 0)) (Bool-cases (w child2 == 0))
        (Bool-cases (w child3 == 0))
    where
      w : Who → ℕ
      w k = wrote (s.children k)

      go : (k : Who) → (w k == 0) ≡ true → GoesOn
      go k e = writes k (s.children k) refl (i.born k ∙ f k) (ground arith)

      by_first :
          ((w child1 == 0) ≡ true) ⊎ ((w child1 == 0) ≡ false)
          → ((w child2 == 0) ≡ true) ⊎ ((w child2 == 0) ≡ false)
          → ((w child3 == 0) ≡ true) ⊎ ((w child3 == 0) ≡ false)
          → GoesOn
      by_first (inl a) b c = go child1 a
      by_first (inr a) (inl b) c = go child2 b
      by_first (inr a) (inr b) (inl c) = go child3 c
      by_first (inr a) (inr b) (inr c) = absurd (ground (arith, total))

  pub reads_on :
      (next : List ℕ → Parent) (rest : List Who)
      → i.rest ≡ rest
      → parent_step s.parent s ≡ read_buf s next
      → ((k : Who) → forked s.parent k ≡ true)
      → reads s.parent < 3
      → GoesOn
  unfolding read_buf
  reads_on next [] e step f h = one_writes f (omega (arith, i.read, ap length e))
  reads_on next (k ∷ ks) e step f h = (
    record s { pipe = bytes ks; parent = next (message k) },
    by_parent (step ∙ rw (read_buf, whole) refl),
  )
    where
      whole : read_pipe s.pipe ≡ some (message k, bytes ks)
      whole = ap read_pipe (i.pipe ∙ ap bytes e) ∙ read_pipe-bytes k ks

  -- When the parent has read three times, every child has written.
  pub all_wrote : length i.got ≡ 3 → (k : Who) → wrote (s.children k) ≡ 1
  all_wrote h child1 = omega (
    arith,
    h,
    total,
    wrote-once (s.children child1),
    wrote-once (s.children child2),
    wrote-once (s.children child3),
  )
  all_wrote h child2 = omega (
    arith,
    h,
    total,
    wrote-once (s.children child1),
    wrote-once (s.children child2),
    wrote-once (s.children child3),
  )
  all_wrote h child3 = omega (
    arith,
    h,
    total,
    wrote-once (s.children child1),
    wrote-once (s.children child2),
    wrote-once (s.children child3),
  )

  pub none_left : length i.got ≡ 3 → i.rest ≡ []
  none_left h = empty i.rest (
      omega (
        arith,
        h,
        total,
        wrote-once (s.children child1),
        wrote-once (s.children child2),
        wrote-once (s.children child3),
      ))
    where
      empty : (ks : List Who) → length ks ≡ 0 → ks ≡ []
      empty [] e = refl
      empty (k ∷ ks) e = absurd (omega (arith, e))
