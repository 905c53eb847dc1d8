-- ===== src/MessageQueue/Safety.antt =====
-- What holds in every reachable state of the two threads.
use hdu_os_experiment.Common.{ℕ, ◌≡◌, ◌⊎◌, inl, inr, refl, List, [], ◌∷◌, ◌++◌}
use hdu_os_experiment.MessageQueue.{
  Text, sender_done, receiver_done, State, st, Step, s_wait_rec, s_enter, s_send, s_post_send,
  s_wait_point, s_get_answer, s_post_last, s_check, s_remove, r_wait_send, r_get_text, r_post_rec,
  r_test, r_answer, r_post_point, r_wait_last, Reach,
}
use hdu_os_experiment.MessageQueue.Invariant.{
  at_head, at_test, at_check, at_remove, at_end, Inv, free, entering, sending, posting, posted,
  taking, taken, ending, answering, answered, pointed, getting, got, closing, closed, Reach-Inv,
}

-- Both threads have returned, the queue is empty, and the texts received are those sent.
pub data IsFinished : State → Type 0 where
  finished :
      {rec send point : ℕ} {texts : List Text}
      → IsFinished (st rec send point [] sender_done receiver_done texts texts)

goes_on : (s : State) → Inv s → IsFinished s ⊎ ((t : State) × Step s t)
goes_on _ (free i) = inr (_, s_wait_rec)
goes_on _ (entering i) = inr (_, s_enter [])
goes_on _ (sending i) = inr (_, s_send)
goes_on _ (posting i) = inr (_, s_post_send)
goes_on _ (posted e at_head) = inr (_, r_wait_send)
goes_on _ (posted e (at_test e')) = inr (_, r_test)
goes_on _ (taking e) = inr (_, r_get_text)
goes_on _ (taken e) = inr (_, r_post_rec)
goes_on _ (ending e) = inr (_, r_test)
goes_on _ answering = inr (_, r_answer)
goes_on _ answered = inr (_, r_post_point)
goes_on _ pointed = inr (_, s_wait_point)
goes_on _ getting = inr (_, s_get_answer)
goes_on _ got = inr (_, s_post_last)
goes_on _ (closing i) = inr (_, r_wait_last)
goes_on _ (closed at_check) = inr (_, s_check)
goes_on _ (closed at_remove) = inr (_, s_remove)
goes_on _ (closed at_end) = inl finished

-- The threads do not deadlock, and neither leaves by `exit (1)`: in every reachable state one of them
-- can take a step, or both have returned, with the queue empty and every text that was sent received.
pub no_deadlock : {s : State} → Reach s → IsFinished s ⊎ ((t : State) × Step s t)
no_deadlock {s} r = goes_on s (Reach-Inv r)

abbrev pub sent_of : State → List Text
sent_of (st rec send point q s r sent received) = sent

abbrev pub received_of : State → List Text
received_of (st rec send point q s r sent received) = received

in_order :
    (s : State)
    → Inv s
    → (sent_of s ≡ received_of s) ⊎ ((t : Text) × (sent_of s ≡ received_of s ++ t ∷ []))
in_order _ (free i) = inl refl
in_order _ (entering i) = inl refl
in_order _ (sending i) = inl refl
in_order _ (posting i) = inr (_, refl)
in_order _ (posted e i) = inr (_, refl)
in_order _ (taking e) = inr (_, refl)
in_order _ (taken e) = inl refl
in_order _ (ending e) = inl refl
in_order _ answering = inl refl
in_order _ answered = inl refl
in_order _ pointed = inl refl
in_order _ getting = inl refl
in_order _ got = inl refl
in_order _ (closing i) = inl refl
in_order _ (closed i) = inl refl

-- No text is lost, doubled or overtaken: in every reachable state the texts received are those sent,
-- in order, except the last one at most.
pub received-sent :
    {s : State}
    → Reach s
    → (sent_of s ≡ received_of s) ⊎ ((t : Text) × (sent_of s ≡ received_of s ++ t ∷ []))
received-sent {s} r = in_order s (Reach-Inv r)
