-- ===== src/Pipe/Steps.antt =====
-- Every call of exam4/3/pipe.c keeps what `Inv` says.
use hdu_os_experiment.Common.{
  ℕ, suc, ◌≡◌, refl, Bool, true, false, ◌||◌, none, some, List, [], ◌∷◌, ◌++◌, if◌then◌else◌, ◌∙◌,
  sym, ap, subst,
}
use hdu_os_experiment.Pipe.{
  Who, child1, child2, child3, same, message, Parent, fork1, fork2, fork3, close_write, read1,
  read2, read3, wait_child, parent_done, State, c_string, read_pipe, read_buf, print_buf, print1,
  print2, print3, received, is_exited, parent_step, Step, by_parent, by_child, Reach, start, later,
}
use hdu_os_experiment.Pipe.Invariant.{
  bytes, texts, count, forked, reads, held, receipts, append_nil, Inv, append_assoc, texts-append,
  length-snoc, speakers-received, receipts-received, read_pipe-bytes, read_pipe-empty,
  c_string-message,
}
use hdu_os_experiment.Pipe.Births.{Holds, fork-Inv, child_step-Inv}

read-Inv :
    (s : State) (next : List ℕ → Parent) (rest : List Who) (i : Inv s)
    → i.rest ≡ rest
    → held s.parent ≡ []
    → ((buf : List ℕ) → held (next buf) ≡ c_string buf ∷ [])
    → ((buf : List ℕ) → reads (next buf) ≡ suc (reads s.parent))
    → ((buf : List ℕ) (j : Who) → forked (next buf) j ≡ forked s.parent j)
    → Holds (read_buf s next)
unfolding read_buf
read-Inv s next [] i none_left h h' r f = rw (read_buf, empty) tt
  where
    empty : read_pipe s.pipe ≡ none
    empty = ap read_pipe (i.pipe ∙ ap bytes none_left) ∙ read_pipe-empty
read-Inv s next (k ∷ ks) i left h h' r f =
    rw (read_buf, whole)
      (record {
        got = i.got ++ k ∷ [];
        rest = ks;
        written = i.written ∙ ap (λ js. i.got ++ js) left ∙ sym (append_assoc i.got (k ∷ []) ks);
        pipe = refl;
        printed =
            ap (λ ts. receipts s.printed ++ ts) (h' (message k))
            ∙ ap (λ ts. ts ++ c_string (message k) ∷ []) all_printed
            ∙ ap (λ t. texts i.got ++ t ∷ []) (c_string-message k)
            ∙ sym (texts-append i.got k);
        said = i.said;
        read = length-snoc i.got k ∙ ap suc i.read ∙ sym (r (message k));
        counted = i.counted;
        born = λ j. i.born j ∙ sym (f (message k) j);
      })
  where
    whole : read_pipe s.pipe ≡ some (message k, bytes ks)
    whole = ap read_pipe (i.pipe ∙ ap bytes left) ∙ read_pipe-bytes k ks

    all_printed : receipts s.printed ≡ texts i.got
    all_printed =
        sym (append_nil (receipts s.printed))
        ∙ ap (λ ts. receipts s.printed ++ ts) (sym h)
        ∙ i.printed

-- The parent prints what it holds.
show-Inv :
    (s : State) (buf : List ℕ) (next : Parent)
    → held s.parent ≡ c_string buf ∷ []
    → held next ≡ []
    → reads next ≡ reads s.parent
    → ((j : Who) → forked next j ≡ forked s.parent j)
    → Inv s
    → Inv (print_buf s buf next)
show-Inv s buf next h h' r f i = record {
  got = i.got;
  rest = i.rest;
  written = i.written;
  pipe = i.pipe;
  printed =
      ap (λ ts. receipts (s.printed ++ received buf ∷ []) ++ ts) h'
      ∙ append_nil (receipts (s.printed ++ received buf ∷ []))
      ∙ receipts-received s.printed buf
      ∙ ap (λ ts. receipts s.printed ++ ts) (sym h)
      ∙ i.printed;
  said = λ j. ap (count j) (speakers-received s.printed buf) ∙ i.said j;
  read = i.read ∙ sym r;
  counted = i.counted;
  born = λ j. i.born j ∙ sym (f j);
}

-- A call of the parent after which as many are forked and read.
go-Inv :
    (s : State) (next : Parent)
    → reads next ≡ reads s.parent
    → held next ≡ held s.parent
    → ((j : Who) → forked next j ≡ forked s.parent j)
    → Inv s
    → Inv (record s { parent = next })
go-Inv s next r h f i = record {
  got = i.got;
  rest = i.rest;
  written = i.written;
  pipe = i.pipe;
  printed = ap (λ ts. receipts s.printed ++ ts) h ∙ i.printed;
  said = i.said;
  read = i.read ∙ sym r;
  counted = i.counted;
  born = λ j. i.born j ∙ sym (f j);
}

forked2 : (j : Who) → forked fork2 j ≡ (if same j child1 then true else forked fork1 j)
unfolding same
forked2 child1 = refl
forked2 child2 = refl
forked2 child3 = refl

forked3 : (j : Who) → forked fork3 j ≡ (if same j child2 then true else forked fork2 j)
unfolding same
forked3 child1 = refl
forked3 child2 = refl
forked3 child3 = refl

forked_all : (j : Who) → true ≡ (if same j child3 then true else forked fork3 j)
unfolding same
forked_all child1 = refl
forked_all child2 = refl
forked_all child3 = refl

parent_step-Inv : (p : Parent) (s : State) → s.parent ≡ p → Inv s → Holds (parent_step p s)
unfolding parent_step same
parent_step-Inv fork1 s at i =
    fork-Inv s child1 fork2 (rw at refl) (rw at refl) (rw at refl) (rw at forked2) i
parent_step-Inv fork2 s at i =
    fork-Inv s child2 fork3 (rw at refl) (rw at refl) (rw at refl) (rw at forked3) i
parent_step-Inv fork3 s at i =
    fork-Inv s child3 close_write (rw at refl) (rw at refl) (rw at refl) (rw at forked_all) i
parent_step-Inv close_write s at i = go-Inv s read1 (rw at refl) (rw at refl) (rw at λ j. refl) i
parent_step-Inv read1 s at i =
    read-Inv s print1 i.rest i refl (rw at refl) (λ buf. refl) (λ buf. rw at refl)
      (λ buf. rw at λ j. refl)
parent_step-Inv (print1 buf) s at i =
    show-Inv s buf read2 (rw at refl) refl (rw at refl) (rw at λ j. refl) i
parent_step-Inv read2 s at i =
    read-Inv s print2 i.rest i refl (rw at refl) (λ buf. refl) (λ buf. rw at refl)
      (λ buf. rw at λ j. refl)
parent_step-Inv (print2 buf) s at i =
    show-Inv s buf read3 (rw at refl) refl (rw at refl) (rw at λ j. refl) i
parent_step-Inv read3 s at i =
    read-Inv s print3 i.rest i refl (rw at refl) (λ buf. refl) (λ buf. rw at refl)
      (λ buf. rw at λ j. refl)
parent_step-Inv (print3 buf) s at i =
    show-Inv s buf wait_child (rw at refl) refl (rw at refl) (rw at λ j. refl) i
parent_step-Inv wait_child s at i = waited (
    is_exited (s.children child1)
    || (is_exited (s.children child2) || is_exited (s.children child3)))
  where
    waited : (b : Bool) → Holds (if b then some (record s { parent = parent_done }) else none)
    waited true = go-Inv s parent_done (rw at refl) (rw at refl) (rw at λ j. refl) i
    waited false = tt
parent_step-Inv parent_done s at i = tt

Step-Inv : {s t : State} → Step s t → Inv s → Inv t
Step-Inv {s} (by_parent e) i = subst Holds e (parent_step-Inv s.parent s refl i)
Step-Inv {s} (by_child k e) i = subst Holds e (child_step-Inv (s.children k) s k refl i)

pub Reach-Inv : {n : ℕ} {s : State} → Reach n s → Inv s
Reach-Inv start = record {
  got = [];
  rest = [];
  written = refl;
  pipe = refl;
  printed = refl;
  said = λ k. refl;
  read = refl;
  counted = λ k. refl;
  born = λ k. refl;
}
Reach-Inv (later r e) = Step-Inv e (Reach-Inv r)
