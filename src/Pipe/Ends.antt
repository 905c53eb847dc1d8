-- ===== src/Pipe/Ends.antt =====
-- Every run of exam4/3/pipe.c ends, with the three texts printed.
use hdu_os_experiment.Common.{
  ℕ, ◌<◌, ◌≡◌, ◌⊎◌, refl, arith, [], ◌++◌, length, inl, inr, ◌∙◌, sym, ap,
}
use hdu_os_experiment.Pipe.{
  Who, child1, child2, child3, exiting, exited, Parent, fork1, fork2, fork3, close_write, read1,
  read2, read3, print1, print2, print3, wait_child, parent_done, State, parent_step, Step,
  by_parent, Reach,
}
use hdu_os_experiment.Pipe.Invariant.{
  bytes, texts, count, spoke, speakers, receipts, reads, held, Inv, append_nil,
}
use hdu_os_experiment.Pipe.Steps.{Reach-Inv}
use hdu_os_experiment.Pipe.Countdown.{Reach-left, Step-left, left-done}
use hdu_os_experiment.Pipe.Progress.{GoesOn, exits, reads_on, all_wrote, none_left, child-exiting}

-- Every process has ended, each child has printed its line once and written once, the parent has printed
-- the texts and nothing else, in the order of the writes, and nothing is left in the pipe.
pub record IsFinished (s : State) : Type 0 where
  pub parent : s.parent ≡ parent_done
  pub children : (k : Who) → s.children k ≡ exited
  pub once : (k : Who) → count k s.written ≡ 1
  pub said : (k : Who) → count k (speakers s.printed) ≡ 1
  pub printed : receipts s.printed ≡ texts s.written
  pub pipe : s.pipe ≡ []

module _ (s : State) (i : Inv s) where
  ends : s.parent ≡ parent_done → IsFinished s ⊎ GoesOn s i
  ends at = by_children (exiting_or child1) (exiting_or child2) (exiting_or child3)
    where
      three : length i.got ≡ 3
      three = i.read ∙ ap reads at

      exiting_or : (k : Who) → (s.children k ≡ exiting) ⊎ (s.children k ≡ exited)
      exiting_or k = child-exiting (s.children k) (all_wrote s i three k)

      all :
          (s.children child1 ≡ exited)
          → (s.children child2 ≡ exited)
          → (s.children child3 ≡ exited)
          → (k : Who) → s.children k ≡ exited
      all a b c child1 = a
      all a b c child2 = b
      all a b c child3 = c

      by_children :
          (s.children child1 ≡ exiting) ⊎ (s.children child1 ≡ exited)
          → (s.children child2 ≡ exiting) ⊎ (s.children child2 ≡ exited)
          → (s.children child3 ≡ exiting) ⊎ (s.children child3 ≡ exited)
          → IsFinished s ⊎ GoesOn s i
      by_children (inl a) b c = inr (exits s i child1 a)
      by_children (inr a) (inl b) c = inr (exits s i child2 b)
      by_children (inr a) (inr b) (inl c) = inr (exits s i child3 c)
      by_children (inr a) (inr b) (inr c) = inl (record {
        parent = at;
        children = all a b c;
        once = λ k. i.counted k ∙ all_wrote s i three k;
        said = λ k. i.said k ∙ ap spoke (all a b c k);
        printed =
            sym (append_nil (receipts s.printed))
            ∙ ap (λ ts. receipts s.printed ++ ts) (sym (ap held at))
            ∙ i.printed
            ∙ ap texts
                (sym (i.written ∙ ap (λ ks. i.got ++ ks) (none_left s i three) ∙ append_nil i.got));
        pipe = i.pipe ∙ ap bytes (none_left s i three);
      })

  waits : s.parent ≡ wait_child → GoesOn s i
  unfolding parent_step
  waits at = by_first (exiting_or child1)
    where
      exiting_or : (k : Who) → (s.children k ≡ exiting) ⊎ (s.children k ≡ exited)
      exiting_or k = child-exiting (s.children k) (all_wrote s i (i.read ∙ ap reads at) k)

      by_first : (s.children child1 ≡ exiting) ⊎ (s.children child1 ≡ exited) → GoesOn s i
      by_first (inl a) = exits s i child1 a
      by_first (inr a) =
          (record s { parent = parent_done }, by_parent (ap (λ p. parent_step p s) at ∙ rw a refl))

  goes_on : (p : Parent) → s.parent ≡ p → IsFinished s ⊎ GoesOn s i
  unfolding parent_step
  goes_on fork1 at = inr (_, by_parent (ap (λ p. parent_step p s) at))
  goes_on fork2 at = inr (_, by_parent (ap (λ p. parent_step p s) at))
  goes_on fork3 at = inr (_, by_parent (ap (λ p. parent_step p s) at))
  goes_on close_write at = inr (_, by_parent (ap (λ p. parent_step p s) at))
  goes_on read1 at = inr (
      reads_on s i print1 i.rest refl (ap (λ p. parent_step p s) at) (rw at λ k. refl)
        (rw at (omega arith)))
  goes_on (print1 buf) at = inr (_, by_parent (ap (λ p. parent_step p s) at))
  goes_on read2 at = inr (
      reads_on s i print2 i.rest refl (ap (λ p. parent_step p s) at) (rw at λ k. refl)
        (rw at (omega arith)))
  goes_on (print2 buf) at = inr (_, by_parent (ap (λ p. parent_step p s) at))
  goes_on read3 at = inr (
      reads_on s i print3 i.rest refl (ap (λ p. parent_step p s) at) (rw at λ k. refl)
        (rw at (omega arith)))
  goes_on (print3 buf) at = inr (_, by_parent (ap (λ p. parent_step p s) at))
  goes_on wait_child at = inr (waits at)
  goes_on parent_done at = ends at

-- Every run ends 23 calls after that of pipe, in whatever order the four processes take their turns: before that one of them can always go on, and then
-- all have ended, each child has printed its line once and written once, the parent has printed exactly
-- the three texts, whole and in the order of the writes, and the pipe is empty.
pub Reach-finishes :
    {n : ℕ} {s : State}
    → Reach n s
    → ((n < 23) × ((t : State) × Step s t)) ⊎ ((n ≡ 23) × IsFinished s)
Reach-finishes {n} {s} r = elim (goes_on s (Reach-Inv r) s.parent refl) [
  | inl f ↦ inr (omega (arith, Reach-left r, left-done s f.parent f.children), f)
  | inr (t, e) ↦ inl (omega (arith, Reach-left r, Step-left (Reach-Inv r) e), (t, e))
]
