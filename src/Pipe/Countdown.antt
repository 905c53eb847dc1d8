-- ===== src/Pipe/Countdown.antt =====
-- How many steps the processes of exam4/3/pipe.c have before them.
use hdu_os_experiment.Common.{
  ℕ, suc, ◌+◌, ◌≡◌, refl, arith, Bool, true, false, ◌||◌, Option, none, some, List, if◌then◌else◌,
  ◌∙◌, ap, subst,
}
use hdu_os_experiment.Pipe.{
  Who, child1, child2, child3, same, Child, unborn, closing, printing, writing, exiting, exited,
  Parent, fork1, fork2, fork3, close_write, read1, read2, read3, wait_child, parent_done, State,
  set_child, read_pipe, read_buf, print1, print2, print3, is_exited, fork, parent_step, child_step,
  Step, by_parent, by_child, Reach, start, later,
}
use hdu_os_experiment.Pipe.Invariant.{is_born, forked, Inv}
use hdu_os_experiment.Pipe.Steps.{Reach-Inv}

abbrev child_left : Child → ℕ
child_left unborn = 4
child_left closing = 4
child_left printing = 3
child_left writing = 2
child_left exiting = 1
child_left exited = 0

abbrev parent_left : Parent → ℕ
parent_left fork1 = 11
parent_left fork2 = 10
parent_left fork3 = 9
parent_left close_write = 8
parent_left read1 = 7
parent_left (print1 buf) = 6
parent_left read2 = 5
parent_left (print2 buf) = 4
parent_left read3 = 3
parent_left (print3 buf) = 2
parent_left wait_child = 1
parent_left parent_done = 0

abbrev children_left : (Who → Child) → ℕ
children_left c = child_left (c child1) + (child_left (c child2) + child_left (c child3))

abbrev pub left : State → ℕ
left s = parent_left s.parent + children_left s.children

-- A step leaves one step less.
abbrev CountsDown : State → Option State → Type 0
CountsDown s none = Unit {0}
CountsDown s (some t) = left s ≡ suc (left t)

children_left-set_child :
    (c : Who → Child) (k : Who) (v : Child)
    → children_left (set_child c k v) + child_left (c k) ≡ children_left c + child_left v
unfolding set_child same
children_left-set_child c child1 v = omega arith
children_left-set_child c child2 v = omega arith
children_left-set_child c child3 v = omega arith

unborn-left : (c : Child) → is_born c ≡ false → child_left c ≡ 4
unborn-left unborn h = refl
unborn-left closing h = refl
unborn-left printing h = cc
unborn-left writing h = cc
unborn-left exiting h = cc
unborn-left exited h = cc

fork-CountsDown :
    (s : State) (k : Who) (next : Parent)
    → parent_left s.parent ≡ suc (parent_left next)
    → forked s.parent k ≡ false
    → Inv s
    → CountsDown s (some (fork s k next))
fork-CountsDown s k next e f i = omega (
  arith,
  e,
  children_left-set_child s.children k closing,
  unborn-left (s.children k) (i.born k ∙ f),
)

read-CountsDown :
    (s : State) (next : List ℕ → Parent) (o : Option (List ℕ × List ℕ))
    → read_pipe s.pipe ≡ o
    → ((buf : List ℕ) → parent_left s.parent ≡ suc (parent_left (next buf)))
    → CountsDown s (read_buf s next)
unfolding read_buf
read-CountsDown s next none e h = rw (read_buf, e) tt
read-CountsDown s next (some r) e h = rw (read_buf, e) (omega (arith, h r.0))

parent_step-CountsDown :
    (p : Parent) (s : State) → s.parent ≡ p → Inv s → CountsDown s (parent_step p s)
unfolding parent_step same
parent_step-CountsDown fork1 s at i = fork-CountsDown s child1 fork2 (rw at refl) (rw at refl) i
parent_step-CountsDown fork2 s at i = fork-CountsDown s child2 fork3 (rw at refl) (rw at refl) i
parent_step-CountsDown fork3 s at i =
    fork-CountsDown s child3 close_write (rw at refl) (rw at refl) i
parent_step-CountsDown close_write s at i = omega (arith, ap parent_left at)
parent_step-CountsDown read1 s at i =
    read-CountsDown s print1 (read_pipe s.pipe) refl (λ buf. ap parent_left at)
parent_step-CountsDown (print1 buf) s at i = omega (arith, ap parent_left at)
parent_step-CountsDown read2 s at i =
    read-CountsDown s print2 (read_pipe s.pipe) refl (λ buf. ap parent_left at)
parent_step-CountsDown (print2 buf) s at i = omega (arith, ap parent_left at)
parent_step-CountsDown read3 s at i =
    read-CountsDown s print3 (read_pipe s.pipe) refl (λ buf. ap parent_left at)
parent_step-CountsDown (print3 buf) s at i = omega (arith, ap parent_left at)
parent_step-CountsDown wait_child s at i = waited (
    is_exited (s.children child1)
    || (is_exited (s.children child2) || is_exited (s.children child3)))
  where
    waited :
        (b : Bool) → CountsDown s (if b then some (record s { parent = parent_done }) else none)
    waited true = omega (arith, ap parent_left at)
    waited false = tt
parent_step-CountsDown parent_done s at i = tt

child_step-CountsDown :
    (c : Child) (s : State) (k : Who) → s.children k ≡ c → CountsDown s (child_step c k s)
unfolding child_step
child_step-CountsDown unborn s k at = tt
child_step-CountsDown closing s k at =
    omega (arith, children_left-set_child s.children k printing, ap child_left at)
child_step-CountsDown printing s k at =
    omega (arith, children_left-set_child s.children k writing, ap child_left at)
child_step-CountsDown writing s k at =
    omega (arith, children_left-set_child s.children k exiting, ap child_left at)
child_step-CountsDown exiting s k at =
    omega (arith, children_left-set_child s.children k exited, ap child_left at)
child_step-CountsDown exited s k at = tt

pub Step-left : {s t : State} → Inv s → Step s t → left s ≡ suc (left t)
Step-left {s} i (by_parent e) = subst (CountsDown s) e (parent_step-CountsDown s.parent s refl i)
Step-left {s} i (by_child k e) =
    subst (CountsDown s) e (child_step-CountsDown (s.children k) s k refl)

pub Reach-left : {n : ℕ} {s : State} → Reach n s → n + left s ≡ 23
Reach-left start = refl
Reach-left (later r e) = omega (arith, Reach-left r, Step-left (Reach-Inv r) e)

-- No step is left: every process has ended.
pub left-done :
    (s : State) → s.parent ≡ parent_done → ((k : Who) → s.children k ≡ exited) → left s ≡ 0
left-done s p c = omega (
  arith,
  ap parent_left p,
  ap child_left (c child1),
  ap child_left (c child2),
  ap child_left (c child3),
)
