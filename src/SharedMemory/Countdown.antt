-- ===== src/SharedMemory/Countdown.antt =====
-- How many calls the two programs of exam4/5 have before them.

use hdu_os_experiment.Common.{ℕ, suc, ◌+◌, ◌≡◌, refl, arith, Option, none, some, subst}
use hdu_os_experiment.SharedMemory.{
  Text, Sems, open_sem, wait_send, wait_rec, Sender, s_open, s_create, s_attach, s_wait, s_enter,
  s_post, s_wait_again, s_print, s_post_again, s_close, s_delete_sem, s_detach, s_delete, s_done,
  Receiver, r_open, r_create, r_attach, r_wait, r_print, r_copy, r_post, r_wait_again, r_close,
  r_detach, r_done, State, st, then_go, sender_step, receiver_step, Step, by_sender, by_receiver,
  Reach, start, later,
}

-- The calls that a program has before it.
abbrev sender_left : Sender → ℕ
sender_left s_open = 13
sender_left s_create = 12
sender_left s_attach = 11
sender_left s_wait = 10
sender_left s_enter = 9
sender_left s_post = 8
sender_left s_wait_again = 7
sender_left s_print = 6
sender_left s_post_again = 5
sender_left s_close = 4
sender_left s_delete_sem = 3
sender_left s_detach = 2
sender_left s_delete = 1
sender_left s_done = 0

abbrev receiver_left : Receiver → ℕ
receiver_left r_open = 10
receiver_left r_create = 9
receiver_left r_attach = 8
receiver_left r_wait = 7
receiver_left r_print = 6
receiver_left r_copy = 5
receiver_left r_post = 4
receiver_left r_wait_again = 3
receiver_left r_close = 2
receiver_left r_detach = 1
receiver_left r_done = 0

abbrev pub left : State → ℕ
left (st q m s r a b c) = sender_left s + receiver_left r

-- A call that goes on leaves one call less.
abbrev CountsDown : State → Option State → Type 0
CountsDown s none = Unit {0}
CountsDown s (some t) = left s ≡ suc (left t)

then_go-CountsDown :
    (s : State) (q : Option Sems) (f : Sems → State)
    → ((q' : Sems) → left s ≡ suc (left (f q')))
    → CountsDown s (then_go q f)
then_go-CountsDown s none f h = tt
then_go-CountsDown s (some q) f h = h q

sender_step-CountsDown : (x : Text) (s : State) → CountsDown s (sender_step x s)
unfolding sender_step
sender_step-CountsDown x (st q m s_open r a b c) =
    then_go-CountsDown (st q m s_open r a b c) (open_sem q) _ λ q'. omega arith
sender_step-CountsDown x (st q m s_create r a b c) = omega arith
sender_step-CountsDown x (st q m s_attach r a b c) = omega arith
sender_step-CountsDown x (st q m s_wait r a b c) =
    then_go-CountsDown (st q m s_wait r a b c) (wait_rec q) _ λ q'. omega arith
sender_step-CountsDown x (st q m s_enter r a b c) = omega arith
sender_step-CountsDown x (st q m s_post r a b c) = omega arith
sender_step-CountsDown x (st q m s_wait_again r a b c) =
    then_go-CountsDown (st q m s_wait_again r a b c) (wait_rec q) _ λ q'. omega arith
sender_step-CountsDown x (st q m s_print r a b c) = omega arith
sender_step-CountsDown x (st q m s_post_again r a b c) = omega arith
sender_step-CountsDown x (st q m s_close r a b c) = omega arith
sender_step-CountsDown x (st q m s_delete_sem r a b c) = omega arith
sender_step-CountsDown x (st q m s_detach r a b c) = omega arith
sender_step-CountsDown x (st q m s_delete r a b c) = omega arith
sender_step-CountsDown x (st q m s_done r a b c) = tt

receiver_step-CountsDown : (s : State) → CountsDown s (receiver_step s)
unfolding receiver_step
receiver_step-CountsDown (st q m s r_open a b c) =
    then_go-CountsDown (st q m s r_open a b c) (open_sem q) _ λ q'. omega arith
receiver_step-CountsDown (st q m s r_create a b c) = omega arith
receiver_step-CountsDown (st q m s r_attach a b c) = omega arith
receiver_step-CountsDown (st q m s r_wait a b c) =
    then_go-CountsDown (st q m s r_wait a b c) (wait_send q) _ λ q'. omega arith
receiver_step-CountsDown (st q m s r_print a b c) = omega arith
receiver_step-CountsDown (st q m s r_copy a b c) = omega arith
receiver_step-CountsDown (st q m s r_post a b c) = omega arith
receiver_step-CountsDown (st q m s r_wait_again a b c) =
    then_go-CountsDown (st q m s r_wait_again a b c) (wait_send q) _ λ q'. omega arith
receiver_step-CountsDown (st q m s r_close a b c) = omega arith
receiver_step-CountsDown (st q m s r_detach a b c) = omega arith
receiver_step-CountsDown (st q m s r_done a b c) = tt

pub Step-left : {s t : State} → Step s t → left s ≡ suc (left t)
Step-left {s} (by_sender x e) = subst (CountsDown s) e (sender_step-CountsDown x s)
Step-left {s} (by_receiver e) = subst (CountsDown s) e (receiver_step-CountsDown s)

pub Reach-left : {n : ℕ} {s : State} → Reach n s → n + left s ≡ 23
Reach-left start = refl
Reach-left (later r e) = omega (arith, Reach-left r, Step-left e)
