-- ===== src/SharedMemory.antt =====
-- The two programs of exam4/5, sender.c and receive.c with their calls in common.c: one text passes
-- through a segment of shared memory, and an answer back, under two named semaphores.
pub mod Invariant
pub mod Countdown
pub mod Ends
mod Examples
use hdu_os_experiment.Common.{
  ℕ, zero, suc, ◌≡◌, Bool, true, false, Option, none, some, List, [], ◌∷◌, if◌then◌else◌,
}

abbrev pub Text : Type 0
Text = List ℕ

-- What `receive` copies into the segment.
abbrev pub over_text : Text
over_text = b'o' ∷ b'v' ∷ b'e' ∷ b'r' ∷ []

-- The semaphores "send" and "rec": whether their names stand, and their values.
pub data Sems : Type 0 where
  no_sems : Sems
  sems : (named : Bool) (send rec : ℕ) → Sems

-- `opensem`. To open them once their names are gone makes a second pair, which is not described.
unfoldable pub open_sem : Sems → Option Sems
open_sem no_sems = some (sems true 0 1)
open_sem (sems true send rec) = some (sems true send rec)
open_sem (sems false send rec) = none

-- `sem_wait`, which goes on only if the value is not 0.
unfoldable pub wait_send : Sems → Option Sems
wait_send (sems n (suc send) rec) = some (sems n send rec)
wait_send q = none

unfoldable pub wait_rec : Sems → Option Sems
wait_rec (sems n send (suc rec)) = some (sems n send rec)
wait_rec q = none

-- `sem_post`.
unfoldable pub post_send : Sems → Sems
post_send no_sems = no_sems
post_send (sems n send rec) = sems n (suc send) rec

unfoldable pub post_rec : Sems → Sems
post_rec no_sems = no_sems
post_rec (sems n send rec) = sems n send (suc rec)

-- `deletesem`.
unfoldable pub delete_sem : Sems → Sems
delete_sem no_sems = no_sems
delete_sem (sems n send rec) = sems false send rec

-- The segment: the text in it, how often it is attached, and whether it is to be removed.
pub data Shm : Type 0 where
  no_shm : Shm
  shm : (text : Text) (attached : ℕ) (removed : Bool) → Shm

-- `createS_M`: a new segment is all zeros.
unfoldable pub create_s_m : Shm → Shm
create_s_m no_shm = shm [] 0 false
create_s_m (shm t n removed) = shm t n removed

-- `shmat`.
unfoldable pub attach : Shm → Shm
attach no_shm = no_shm
attach (shm t n removed) = shm t (suc n) removed

-- `detachS_M`: a segment that is to be removed goes with its last attachment.
unfoldable pub detach_s_m : Shm → Shm
detach_s_m no_shm = no_shm
detach_s_m (shm t zero removed) = shm t zero removed
detach_s_m (shm t (suc zero) true) = no_shm
detach_s_m (shm t (suc zero) false) = shm t zero false
detach_s_m (shm t (suc (suc n)) removed) = shm t (suc n) removed

-- `deleteS_M`.
unfoldable pub delete_s_m : Shm → Shm
delete_s_m no_shm = no_shm
delete_s_m (shm t zero removed) = no_shm
delete_s_m (shm t (suc n) removed) = shm t (suc n) true

unfoldable pub get_text : Shm → Text
get_text no_shm = []
get_text (shm t n removed) = t

unfoldable pub set_text : Text → Shm → Shm
set_text t no_shm = no_shm
set_text t (shm _ n removed) = shm t n removed

-- Where sender.c stands, by the call that comes next: `opensem`, `createS_M`, `shmat`; `sem_wait`,
-- `scanf`, `sem_post`, `sem_wait`, `printf`, `sem_post` of `sender`; `detachsem`, `deletesem`,
-- `detachS_M`, `deleteS_M`.
pub data Sender : Type 0 where
  s_open : Sender
  s_create : Sender
  s_attach : Sender
  s_wait : Sender
  s_enter : Sender
  s_post : Sender
  s_wait_again : Sender
  s_print : Sender
  s_post_again : Sender
  s_close : Sender
  s_delete_sem : Sender
  s_detach : Sender
  s_delete : Sender
  s_done : Sender

-- Where receive.c stands: `opensem`, `createS_M`, `shmat`; `sem_wait`, `printf`, `strcpy`, `sem_post`,
-- `sem_wait` of `receive`; `detachsem`, `detachS_M`.
pub data Receiver : Type 0 where
  r_open : Receiver
  r_create : Receiver
  r_attach : Receiver
  r_wait : Receiver
  r_print : Receiver
  r_copy : Receiver
  r_post : Receiver
  r_wait_again : Receiver
  r_close : Receiver
  r_detach : Receiver
  r_done : Receiver

-- The semaphores, the segment, both programs, and the texts that were typed into the sender, printed
-- by the receiver and printed by the sender.
pub data State : Type 0 where
  st : (q : Sems) (m : Shm) (s : Sender) (r : Receiver) (typed received final : Option Text) → State

-- Both programs are started, and neither the semaphores nor the segment exist.
abbrev pub init : State
init = st no_sems no_shm s_open r_open none none none

-- A call that may have to wait.
abbrev pub then_go : Option Sems → (Sems → State) → Option State
then_go none f = none
then_go (some q) f = some (f q)

-- The next call of sender.c, where `t` is what is typed; every call succeeds. `none` means that it
-- waits or has ended.
unfoldable pub sender_step : Text → State → Option State
sender_step t (st q m s_open r a b c) = then_go (open_sem q) λ q'. st q' m s_create r a b c
sender_step t (st q m s_create r a b c) = some (st q (create_s_m m) s_attach r a b c)
sender_step t (st q m s_attach r a b c) = some (st q (attach m) s_wait r a b c)
sender_step t (st q m s_wait r a b c) = then_go (wait_rec q) λ q'. st q' m s_enter r a b c
sender_step t (st q m s_enter r a b c) = some (st q (set_text t m) s_post r (some t) b c)
sender_step t (st q m s_post r a b c) = some (st (post_send q) m s_wait_again r a b c)
sender_step t (st q m s_wait_again r a b c) = then_go (wait_rec q) λ q'. st q' m s_print r a b c
sender_step t (st q m s_print r a b c) = some (st q m s_post_again r a b (some (get_text m)))
sender_step t (st q m s_post_again r a b c) = some (st (post_send q) m s_close r a b c)
sender_step t (st q m s_close r a b c) = some (st q m s_delete_sem r a b c)
sender_step t (st q m s_delete_sem r a b c) = some (st (delete_sem q) m s_detach r a b c)
sender_step t (st q m s_detach r a b c) = some (st q (detach_s_m m) s_delete r a b c)
sender_step t (st q m s_delete r a b c) = some (st q (delete_s_m m) s_done r a b c)
sender_step t (st q m s_done r a b c) = none

-- The next call of receive.c.
unfoldable pub receiver_step : State → Option State
receiver_step (st q m s r_open a b c) = then_go (open_sem q) λ q'. st q' m s r_create a b c
receiver_step (st q m s r_create a b c) = some (st q (create_s_m m) s r_attach a b c)
receiver_step (st q m s r_attach a b c) = some (st q (attach m) s r_wait a b c)
receiver_step (st q m s r_wait a b c) = then_go (wait_send q) λ q'. st q' m s r_print a b c
receiver_step (st q m s r_print a b c) = some (st q m s r_copy a (some (get_text m)) c)
receiver_step (st q m s r_copy a b c) = some (st q (set_text over_text m) s r_post a b c)
receiver_step (st q m s r_post a b c) = some (st (post_rec q) m s r_wait_again a b c)
receiver_step (st q m s r_wait_again a b c) = then_go (wait_send q) λ q'. st q' m s r_close a b c
receiver_step (st q m s r_close a b c) = some (st q m s r_detach a b c)
receiver_step (st q m s r_detach a b c) = some (st q (detach_s_m m) s r_done a b c)
receiver_step (st q m s r_done a b c) = none

-- One call of one of the two programs.
pub data Step (s t : State) : Type 0 where
  by_sender : (text : Text) → sender_step text s ≡ some t → Step s t
  by_receiver : receiver_step s ≡ some t → Step s t

-- The states that the programs can be in after so many calls.
pub data Reach : ℕ → State → Type 0 where
  start : Reach 0 init
  later : {n : ℕ} {s t : State} → Reach n s → Step s t → Reach (suc n) t
