-- ===== src/SharedMemory/Ends.antt =====
-- Every run of the two programs ends, in the same state, and they do not use the segment at once.
use hdu_os_experiment.Common.{
  ℕ, ◌<◌, ◌≡◌, ◌⊎◌, inl, inr, refl, arith, Bool, true, false, ◌&&◌, Option, some, [],
}
use hdu_os_experiment.SharedMemory.{
  Text, over_text, Sems, sems, open_sem, wait_send, wait_rec, Shm, no_shm, Sender, s_enter, s_print,
  s_done, Receiver, r_print, r_copy, r_done, State, st, sender_step, receiver_step, Step, by_sender,
  by_receiver, Reach,
}
use hdu_os_experiment.SharedMemory.Invariant.{
  fresh_s, opened_s, created_s, attached_s, EarlyR, fresh_r, opened_r, created_r, attached_r,
  closing_s, closed_s, unnamed_s, detached_s, deleted_s, waiting_r, closing_r, closed_r, detached_r,
  Inv, early, entering, posting, posted, printing, copying, answering, answered, seen, ending,
  ended, Reach-Inv,
}
use hdu_os_experiment.SharedMemory.Countdown.{left, Reach-left, Step-left}

-- Both programs have ended, the names of the semaphores and the segment are gone, the receiver has
-- printed what was typed, and the sender "over".
pub data IsFinished : State → Type 0 where
  finished :
      {t : Text}
      → IsFinished (st (sems false 0 0) no_shm s_done r_done (some t) (some t) (some over_text))

goes_on : (s : State) → Inv s → IsFinished s ⊎ ((t : State) × Step s t)
unfolding sender_step receiver_step open_sem wait_rec wait_send
goes_on _ (early fresh_s fresh_r) = inr (_, by_sender [] refl)
goes_on _ (early fresh_s opened_r) = inr (_, by_sender [] refl)
goes_on _ (early fresh_s created_r) = inr (_, by_sender [] refl)
goes_on _ (early fresh_s attached_r) = inr (_, by_sender [] refl)
goes_on _ (early opened_s e) = inr (_, by_sender [] refl)
goes_on _ (early created_s e) = inr (_, by_sender [] refl)
goes_on _ (early attached_s e) = inr (_, by_sender [] refl)
goes_on _ (entering e) = inr (_, by_sender [] refl)
goes_on _ (posting e) = inr (_, by_sender [] refl)
goes_on _ (posted fresh_r) = inr (_, by_receiver refl)
goes_on _ (posted opened_r) = inr (_, by_receiver refl)
goes_on _ (posted created_r) = inr (_, by_receiver refl)
goes_on _ (posted attached_r) = inr (_, by_receiver refl)
goes_on _ printing = inr (_, by_receiver refl)
goes_on _ copying = inr (_, by_receiver refl)
goes_on _ answering = inr (_, by_receiver refl)
goes_on _ answered = inr (_, by_sender [] refl)
goes_on _ seen = inr (_, by_sender [] refl)
goes_on _ ending = inr (_, by_sender [] refl)
goes_on _ (ended closing_s l) = inr (_, by_sender [] refl)
goes_on _ (ended closed_s l) = inr (_, by_sender [] refl)
goes_on _ (ended unnamed_s l) = inr (_, by_sender [] refl)
goes_on _ (ended detached_s l) = inr (_, by_sender [] refl)
goes_on _ (ended deleted_s waiting_r) = inr (_, by_receiver refl)
goes_on _ (ended deleted_s closing_r) = inr (_, by_receiver refl)
goes_on _ (ended deleted_s closed_r) = inr (_, by_receiver refl)
goes_on _ (ended deleted_s detached_r) = inl finished

finished-left : {s : State} → IsFinished s → left s ≡ 0
finished-left finished = refl

-- Every run ends after 23 calls, in whatever order the two programs take their turns: before that one
-- of them can always go on, and then both have ended, the semaphores and the segment are gone, the
-- receiver has printed what was typed, and the sender "over".
pub Reach-ends :
    {n : ℕ} {s : State}
    → Reach n s
    → ((n < 23) × ((t : State) × Step s t)) ⊎ ((n ≡ 23) × IsFinished s)
Reach-ends {n} {s} r = elim (goes_on s (Reach-Inv r)) [
  | inl f ↦ inr (omega (arith, Reach-left r, finished-left f), f)
  | inr (t, e) ↦ inl (omega (arith, Reach-left r, Step-left e), (t, e))
]

-- The next call of a program reads or writes the text in the segment.
abbrev pub sender_uses : Sender → Bool
sender_uses s_enter = true
sender_uses s_print = true
sender_uses s = false

abbrev pub receiver_uses : Receiver → Bool
receiver_uses r_print = true
receiver_uses r_copy = true
receiver_uses r = false

early_receiver_uses : {r : Receiver} {b c : Bool} {n : ℕ} → EarlyR r b c n → receiver_uses r ≡ false
early_receiver_uses fresh_r = refl
early_receiver_uses opened_r = refl
early_receiver_uses created_r = refl
early_receiver_uses attached_r = refl

-- The two programs never use the text in the segment at once.
pub Reach-exclusive :
    {n : ℕ} {q : Sems} {m : Shm} {s : Sender} {r : Receiver} {a b c : Option Text}
    → Reach n (st q m s r a b c)
    → sender_uses s && receiver_uses r ≡ false
Reach-exclusive r = exclusive (Reach-Inv r)
  where
    exclusive :
        {q : Sems} {m : Shm} {s : Sender} {r : Receiver} {a b c : Option Text}
        → Inv (st q m s r a b c)
        → sender_uses s && receiver_uses r ≡ false
    exclusive (early fresh_s e) = refl
    exclusive (early opened_s e) = refl
    exclusive (early created_s e) = refl
    exclusive (early attached_s e) = refl
    exclusive (entering e) = early_receiver_uses e
    exclusive (posting e) = refl
    exclusive (posted e) = refl
    exclusive printing = refl
    exclusive copying = refl
    exclusive answering = refl
    exclusive answered = refl
    exclusive seen = refl
    exclusive ending = refl
    exclusive (ended closing_s l) = refl
    exclusive (ended closed_s l) = refl
    exclusive (ended unnamed_s l) = refl
    exclusive (ended detached_s l) = refl
    exclusive (ended deleted_s l) = refl
