-- ===== src/SharedMemory/Invariant.antt =====
-- The phases of a run of the two programs; every reachable state is in one of them.
use hdu_os_experiment.Common.{
  ℕ, zero, suc, ◌+◌, Bool, true, false, ◌||◌, Option, none, some, [], subst,
}
use hdu_os_experiment.SharedMemory.{
  Text, over_text, Sems, no_sems, sems, open_sem, wait_send, wait_rec, post_send, post_rec,
  delete_sem, Shm, no_shm, shm, create_s_m, attach, detach_s_m, delete_s_m, get_text, set_text,
  Sender, s_open, s_create, s_attach, s_wait, s_enter, s_post, s_wait_again, s_print, s_post_again,
  s_close, s_delete_sem, s_detach, s_delete, s_done, Receiver, r_open, r_create, r_attach, r_wait,
  r_print, r_copy, r_post, r_wait_again, r_close, r_detach, r_done, State, st, sender_step,
  receiver_step, Step, by_sender, by_receiver, Reach, start, later,
}

-- A program before its first `sem_wait` is over: whether it has opened the semaphores and created the
-- segment, and how often it has attached it.
pub data EarlyS : Sender → Bool → Bool → ℕ → Type 0 where
  fresh_s : EarlyS s_open false false 0
  opened_s : EarlyS s_create true false 0
  created_s : EarlyS s_attach true true 0
  attached_s : EarlyS s_wait true true 1

pub data EarlyR : Receiver → Bool → Bool → ℕ → Type 0 where
  fresh_r : EarlyR r_open false false 0
  opened_r : EarlyR r_create true false 0
  created_r : EarlyR r_attach true true 0
  attached_r : EarlyR r_wait true true 1

-- A program when the answer has been printed: the names of the semaphores or the value of "send", the
-- attachments, and whether the segment is to be removed.
pub data LateS : Sender → Bool → ℕ → Bool → Type 0 where
  closing_s : LateS s_close true 1 false
  closed_s : LateS s_delete_sem true 1 false
  unnamed_s : LateS s_detach false 1 false
  detached_s : LateS s_delete false 0 false
  deleted_s : LateS s_done false 0 true

pub data LateR : Receiver → ℕ → ℕ → Type 0 where
  waiting_r : LateR r_wait_again 1 1
  closing_r : LateR r_close 0 1
  closed_r : LateR r_detach 0 1
  detached_r : LateR r_done 0 0

abbrev pub sems_at : Bool → Sems
sems_at false = no_sems
sems_at true = sems true 0 1

abbrev pub shm_at : Bool → ℕ → Shm
shm_at false n = no_shm
shm_at true n = shm [] n false

abbrev pub shm_end : ℕ → Bool → Shm
shm_end zero true = no_shm
shm_end zero false = shm over_text 0 false
shm_end (suc n) removed = shm over_text (suc n) removed

pub data Inv : State → Type 0 where
  early :
      {s : Sender} {r : Receiver} {b b' c c' : Bool} {n n' : ℕ}
      → EarlyS s b c n
      → EarlyR r b' c' n'
      → Inv (st (sems_at (b || b')) (shm_at (c || c') (n + n')) s r none none none)
  entering :
      {r : Receiver} {b c : Bool} {n : ℕ}
      → EarlyR r b c n
      → Inv (st (sems true 0 0) (shm [] (suc n) false) s_enter r none none none)
  posting :
      {r : Receiver} {b c : Bool} {n : ℕ} {t : Text}
      → EarlyR r b c n
      → Inv (st (sems true 0 0) (shm t (suc n) false) s_post r (some t) none none)
  posted :
      {r : Receiver} {b c : Bool} {n : ℕ} {t : Text}
      → EarlyR r b c n
      → Inv (st (sems true 1 0) (shm t (suc n) false) s_wait_again r (some t) none none)
  printing :
      {t : Text} → Inv (st (sems true 0 0) (shm t 2 false) s_wait_again r_print (some t) none none)
  copying :
      {t : Text}
      → Inv (st (sems true 0 0) (shm t 2 false) s_wait_again r_copy (some t) (some t) none)
  answering :
      {t : Text}
      → Inv (st (sems true 0 0) (shm over_text 2 false) s_wait_again r_post (some t) (some t) none)
  answered :
      {t : Text}
      → Inv (
          st
            (sems true 0 1)
            (shm over_text 2 false)
            s_wait_again
            r_wait_again
            (some t)
            (some t)
            none)
  seen :
      {t : Text}
      → Inv (st (sems true 0 0) (shm over_text 2 false) s_print r_wait_again (some t) (some t) none)
  ending :
      {t : Text}
      → Inv (
          st
            (sems true 0 0)
            (shm over_text 2 false)
            s_post_again
            r_wait_again
            (some t)
            (some t)
            (some over_text))
  ended :
      {s : Sender} {r : Receiver} {named removed : Bool} {n n' send : ℕ} {t : Text}
      → LateS s named n removed
      → LateR r send n'
      → Inv
          (st (sems named send 0) (shm_end (n + n') removed) s r (some t) (some t) (some over_text))

-- What a call leaves, if it goes on, is in a phase.
abbrev Holds : Option State → Type 0
Holds none = Unit {0}
Holds (some s) = Inv s

sender_step-Inv : (x : Text) (s : State) → Inv s → Holds (sender_step x s)
unfolding sender_step open_sem create_s_m attach wait_rec set_text post_send get_text delete_sem
    detach_s_m delete_s_m
sender_step-Inv x _ (early fresh_s fresh_r) = early opened_s fresh_r
sender_step-Inv x _ (early fresh_s opened_r) = early opened_s opened_r
sender_step-Inv x _ (early fresh_s created_r) = early opened_s created_r
sender_step-Inv x _ (early fresh_s attached_r) = early opened_s attached_r
sender_step-Inv x _ (early opened_s fresh_r) = early created_s fresh_r
sender_step-Inv x _ (early opened_s opened_r) = early created_s opened_r
sender_step-Inv x _ (early opened_s created_r) = early created_s created_r
sender_step-Inv x _ (early opened_s attached_r) = early created_s attached_r
sender_step-Inv x _ (early created_s fresh_r) = early attached_s fresh_r
sender_step-Inv x _ (early created_s opened_r) = early attached_s opened_r
sender_step-Inv x _ (early created_s created_r) = early attached_s created_r
sender_step-Inv x _ (early created_s attached_r) = early attached_s attached_r
sender_step-Inv x _ (early attached_s fresh_r) = entering fresh_r
sender_step-Inv x _ (early attached_s opened_r) = entering opened_r
sender_step-Inv x _ (early attached_s created_r) = entering created_r
sender_step-Inv x _ (early attached_s attached_r) = entering attached_r
sender_step-Inv x _ (entering e) = posting e
sender_step-Inv x _ (posting e) = posted e
sender_step-Inv x _ (posted e) = tt
sender_step-Inv x _ printing = tt
sender_step-Inv x _ copying = tt
sender_step-Inv x _ answering = tt
sender_step-Inv x _ answered = seen
sender_step-Inv x _ seen = ending
sender_step-Inv x _ ending = ended closing_s waiting_r
sender_step-Inv x _ (ended closing_s l) = ended closed_s l
sender_step-Inv x _ (ended closed_s l) = ended unnamed_s l
sender_step-Inv x _ (ended unnamed_s waiting_r) = ended detached_s waiting_r
sender_step-Inv x _ (ended unnamed_s closing_r) = ended detached_s closing_r
sender_step-Inv x _ (ended unnamed_s closed_r) = ended detached_s closed_r
sender_step-Inv x _ (ended unnamed_s detached_r) = ended detached_s detached_r
sender_step-Inv x _ (ended detached_s waiting_r) = ended deleted_s waiting_r
sender_step-Inv x _ (ended detached_s closing_r) = ended deleted_s closing_r
sender_step-Inv x _ (ended detached_s closed_r) = ended deleted_s closed_r
sender_step-Inv x _ (ended detached_s detached_r) = ended deleted_s detached_r
sender_step-Inv x _ (ended deleted_s l) = tt

receiver_step-Inv : (s : State) → Inv s → Holds (receiver_step s)
unfolding receiver_step open_sem create_s_m attach wait_send set_text post_rec get_text detach_s_m
receiver_step-Inv _ (early fresh_s fresh_r) = early fresh_s opened_r
receiver_step-Inv _ (early opened_s fresh_r) = early opened_s opened_r
receiver_step-Inv _ (early created_s fresh_r) = early created_s opened_r
receiver_step-Inv _ (early attached_s fresh_r) = early attached_s opened_r
receiver_step-Inv _ (entering fresh_r) = entering opened_r
receiver_step-Inv _ (posting fresh_r) = posting opened_r
receiver_step-Inv _ (posted fresh_r) = posted opened_r
receiver_step-Inv _ (early fresh_s opened_r) = early fresh_s created_r
receiver_step-Inv _ (early opened_s opened_r) = early opened_s created_r
receiver_step-Inv _ (early created_s opened_r) = early created_s created_r
receiver_step-Inv _ (early attached_s opened_r) = early attached_s created_r
receiver_step-Inv _ (entering opened_r) = entering created_r
receiver_step-Inv _ (posting opened_r) = posting created_r
receiver_step-Inv _ (posted opened_r) = posted created_r
receiver_step-Inv _ (early fresh_s created_r) = early fresh_s attached_r
receiver_step-Inv _ (early opened_s created_r) = early opened_s attached_r
receiver_step-Inv _ (early created_s created_r) = early created_s attached_r
receiver_step-Inv _ (early attached_s created_r) = early attached_s attached_r
receiver_step-Inv _ (entering created_r) = entering attached_r
receiver_step-Inv _ (posting created_r) = posting attached_r
receiver_step-Inv _ (posted created_r) = posted attached_r
receiver_step-Inv _ (early fresh_s attached_r) = tt
receiver_step-Inv _ (early opened_s attached_r) = tt
receiver_step-Inv _ (early created_s attached_r) = tt
receiver_step-Inv _ (early attached_s attached_r) = tt
receiver_step-Inv _ (entering attached_r) = tt
receiver_step-Inv _ (posting attached_r) = tt
receiver_step-Inv _ (posted attached_r) = printing
receiver_step-Inv _ printing = copying
receiver_step-Inv _ copying = answering
receiver_step-Inv _ answering = answered
receiver_step-Inv _ answered = tt
receiver_step-Inv _ seen = tt
receiver_step-Inv _ ending = tt
receiver_step-Inv _ (ended l waiting_r) = ended l closing_r
receiver_step-Inv _ (ended l closing_r) = ended l closed_r
receiver_step-Inv _ (ended closing_s closed_r) = ended closing_s detached_r
receiver_step-Inv _ (ended closed_s closed_r) = ended closed_s detached_r
receiver_step-Inv _ (ended unnamed_s closed_r) = ended unnamed_s detached_r
receiver_step-Inv _ (ended detached_s closed_r) = ended detached_s detached_r
receiver_step-Inv _ (ended deleted_s closed_r) = ended deleted_s detached_r
receiver_step-Inv _ (ended l detached_r) = tt

Step-Inv : {s t : State} → Step s t → Inv s → Inv t
Step-Inv {s} (by_sender x e) i = subst Holds e (sender_step-Inv x s i)
Step-Inv {s} (by_receiver e) i = subst Holds e (receiver_step-Inv s i)

pub Reach-Inv : {n : ℕ} {s : State} → Reach n s → Inv s
Reach-Inv start = early fresh_s fresh_r
Reach-Inv (later r e) = Step-Inv e (Reach-Inv r)
