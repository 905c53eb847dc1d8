-- ===== src/MessageQueue.antt =====
-- The two threads of exam4/4/msgqueue.c, which pass texts through a message queue under three
-- semaphores.
pub mod Invariant
pub mod Safety
pub mod Refinement
mod Examples
use hdu_os_experiment.Common.{
  ℕ, zero, suc, ◌+◌, Bool, true, false, List, [], ◌∷◌, ◌++◌, if◌then◌else◌,
}
use hdu_os_experiment.Memory.{str_eq, read_str}

abbrev pub Text : Type 0
Text = List ℕ

abbrev pub exit_text : Text
exit_text = b'e' ∷ b'x' ∷ b'i' ∷ b't' ∷ []

abbrev pub end_text : Text
end_text = b'e' ∷ b'n' ∷ b'd' ∷ []

abbrev pub over_text : Text
over_text = b'o' ∷ b'v' ∷ b'e' ∷ b'r' ∷ []

-- What the sender sends for a text that is typed.
unfoldable pub sent_text : Text → Text
sent_text t = if str_eq t exit_text then end_text else t

-- The flag that ends both loops.
abbrev pub is_end : Text → Bool
is_end t = str_eq t end_text

-- `strncmp (t, "over", 4) == 0`.
unfoldable pub begins_with_over : Text → Bool
begins_with_over (a ∷ b ∷ c ∷ d ∷ t) = str_eq (a ∷ b ∷ c ∷ d ∷ []) over_text
begins_with_over t = false

-- Where `sender` stands: at the head of its loop, at `scanf`, at `msgsnd`, at `sem_post (&send)`; then
-- at `sem_wait (&point)`, at `msgrcv`, at `sem_post (&send)`, at the test of the answer, at `msgctl`,
-- and after its return. `failed` is the `exit (1)` after the test.
pub data Sender : Type 0 where
  wait_rec : Sender
  enter : Sender
  send_text : Text → Sender
  post_send : Bool → Sender
  wait_point : Sender
  get_answer : Sender
  post_last : Text → Sender
  check : Text → Sender
  remove : Sender
  sender_done : Sender
  failed : Sender

-- Where `receive` stands: at the head of its loop, at `msgrcv`, at `sem_post (&rec)`, at the test for
-- the end, at the `msgsnd` of the answer, at `sem_post (&point)`, at the last `sem_wait (&send)`, and
-- after its return.
pub data Receiver : Type 0 where
  wait_send : Receiver
  get_text : Receiver
  post_rec : Text → Receiver
  test : Text → Receiver
  answer : Receiver
  post_point : Receiver
  wait_last : Receiver
  receiver_done : Receiver

-- The semaphores `rec`, `send` and `point`, the queue, both threads, and the texts that have been
-- sent and received so far.
pub data State : Type 0 where
  st :
      (rec send point : ℕ) (queue : List Text) (s : Sender) (r : Receiver)
      (sent received : List Text)
      → State

-- `init`, and the start of both threads.
abbrev pub init : State
init = st 1 0 0 [] wait_rec wait_send [] []

-- Where the sender goes on after `sem_post (&send)`, by the flag.
abbrev pub next_round : Bool → Sender
next_round true = wait_point
next_round false = wait_rec

-- The test of the answer.
abbrev pub checked : Text → Sender
checked t = if begins_with_over t then remove else failed

-- The test of the receiver for the end.
abbrev pub tested : Text → Receiver
tested t = if is_end t then answer else wait_send

-- One step of one thread, with calls that succeed. A `sem_wait` has a step only if the semaphore is
-- not 0, and a `msgrcv` only if there is a message.
pub data Step : State → State → Type 0 where
  s_wait_rec :
      {rec send point : ℕ} {q : List Text} {r : Receiver} {ls lr : List Text}
      → Step (st (suc rec) send point q wait_rec r ls lr) (st rec send point q enter r ls lr)
  s_enter :
      {rec send point : ℕ} {q : List Text} {r : Receiver} {ls lr : List Text} (t : Text)
      → Step
          (st rec send point q enter r ls lr)
          (st rec send point q (send_text (sent_text t)) r ls lr)
  s_send :
      {rec send point : ℕ} {q : List Text} {t : Text} {r : Receiver} {ls lr : List Text}
      → Step
          (st rec send point q (send_text t) r ls lr)
          (st rec send point (q ++ t ∷ []) (post_send (is_end t)) r (ls ++ t ∷ []) lr)
  s_post_send :
      {rec send point : ℕ} {q : List Text} {b : Bool} {r : Receiver} {ls lr : List Text}
      → Step
          (st rec send point q (post_send b) r ls lr)
          (st rec (suc send) point q (next_round b) r ls lr)
  s_wait_point :
      {rec send point : ℕ} {q : List Text} {r : Receiver} {ls lr : List Text}
      → Step (st rec send (suc point) q wait_point r ls lr) (st rec send point q get_answer r ls lr)
  s_get_answer :
      {rec send point : ℕ} {t : Text} {q : List Text} {r : Receiver} {ls lr : List Text}
      → Step
          (st rec send point (t ∷ q) get_answer r ls lr)
          (st rec send point q (post_last t) r ls lr)
  s_post_last :
      {rec send point : ℕ} {t : Text} {q : List Text} {r : Receiver} {ls lr : List Text}
      → Step
          (st rec send point q (post_last t) r ls lr)
          (st rec (suc send) point q (check t) r ls lr)
  s_check :
      {rec send point : ℕ} {t : Text} {q : List Text} {r : Receiver} {ls lr : List Text}
      → Step (st rec send point q (check t) r ls lr) (st rec send point q (checked t) r ls lr)
  s_remove :
      {rec send point : ℕ} {q : List Text} {r : Receiver} {ls lr : List Text}
      → Step (st rec send point q remove r ls lr) (st rec send point q sender_done r ls lr)
  r_wait_send :
      {rec send point : ℕ} {q : List Text} {s : Sender} {ls lr : List Text}
      → Step (st rec (suc send) point q s wait_send ls lr) (st rec send point q s get_text ls lr)
  r_get_text :
      {rec send point : ℕ} {t : Text} {q : List Text} {s : Sender} {ls lr : List Text}
      → Step
          (st rec send point (t ∷ q) s get_text ls lr)
          (st rec send point q s (post_rec t) ls (lr ++ t ∷ []))
  r_post_rec :
      {rec send point : ℕ} {t : Text} {q : List Text} {s : Sender} {ls lr : List Text}
      → Step (st rec send point q s (post_rec t) ls lr) (st (suc rec) send point q s (test t) ls lr)
  r_test :
      {rec send point : ℕ} {t : Text} {q : List Text} {s : Sender} {ls lr : List Text}
      → Step (st rec send point q s (test t) ls lr) (st rec send point q s (tested t) ls lr)
  r_answer :
      {rec send point : ℕ} {q : List Text} {s : Sender} {ls lr : List Text}
      → Step
          (st rec send point q s answer ls lr)
          (st rec send point (q ++ over_text ∷ []) s post_point ls lr)
  r_post_point :
      {rec send point : ℕ} {q : List Text} {s : Sender} {ls lr : List Text}
      → Step (st rec send point q s post_point ls lr) (st rec send (suc point) q s wait_last ls lr)
  r_wait_last :
      {rec send point : ℕ} {q : List Text} {s : Sender} {ls lr : List Text}
      → Step
          (st rec (suc send) point q s wait_last ls lr)
          (st rec send point q s receiver_done ls lr)

-- The states that the program can reach.
pub data Reach : State → Type 0 where
  start : Reach init
  later : {s t : State} → Reach s → Step s t → Reach t
