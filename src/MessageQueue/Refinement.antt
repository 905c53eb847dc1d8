-- ===== src/MessageQueue/Refinement.antt =====
-- The two threads of exam4/4/msgqueue.c, seen from outside: a buffer with room for one text.
use hdu_os_experiment.Common.{ℕ, ◌≡◌, refl, List, [], ◌∷◌, ◌++◌, subst, sym}
use hdu_os_experiment.MessageQueue.{
  Text, Sender, send_text, Receiver, get_text, State, st, Step, s_wait_rec, s_enter, s_send,
  s_post_send, s_wait_point, s_get_answer, s_post_last, s_check, s_remove, r_wait_send, r_get_text,
  r_post_rec, r_test, r_answer, r_post_point, r_wait_last, Reach,
}
use hdu_os_experiment.MessageQueue.Invariant.{
  Inv, sending, posting, posted, taking, taken, closing, closed, Reach-Inv,
}
use hdu_os_experiment.MessageQueue.Safety.{sent_of, received_of}

-- One step of the buffer, by the texts put in and taken out so far: a text is put into the empty
-- buffer, or the text in it is taken out, or nothing happens.
pub data Buffer : List Text → List Text → List Text → List Text → Type 0 where
  idle : {ls lr : List Text} → Buffer ls lr ls lr
  put : {l : List Text} (t : Text) → Buffer l l (l ++ t ∷ []) l
  take : {l : List Text} (t : Text) → Buffer (l ++ t ∷ []) l (l ++ t ∷ []) (l ++ t ∷ [])

empty_at_send :
    {rec send point : ℕ} {q : List Text} {t : Text} {r : Receiver} {ls lr : List Text}
    → Inv (st rec send point q (send_text t) r ls lr)
    → ls ≡ lr
empty_at_send (sending i) = refl
empty_at_send (posted e i) = elim e [ ]
empty_at_send (taking e) = elim e [ ]
empty_at_send (taken e) = elim e [ ]
empty_at_send (closing i) = elim i [ ]
empty_at_send (closed i) = elim i [ ]

full_at_receive :
    {rec send point : ℕ} {t : Text} {q : List Text} {s : Sender} {ls lr : List Text}
    → Inv (st rec send point (t ∷ q) s get_text ls lr)
    → ls ≡ lr ++ t ∷ []
full_at_receive (posting i) = elim i [ ]
full_at_receive (posted e i) = elim i [ ]
full_at_receive (taking e) = refl

-- Every step of the threads from a reachable state is a step of a buffer with room for one text: the
-- sender puts a text in only when all before it have been received, and the receiver takes out that
-- text and no other.
pub Step-Buffer :
    {s s' : State}
    → Reach s
    → Step s s'
    → Buffer (sent_of s) (received_of s) (sent_of s') (received_of s')
Step-Buffer r (s_send {t = t} {ls = ls}) =
    subst (λ l. Buffer ls l (ls ++ t ∷ []) l) (empty_at_send (Reach-Inv r)) (put t)
Step-Buffer r (r_get_text {t = t} {lr = lr}) =
    subst (λ l. Buffer l lr l (lr ++ t ∷ [])) (sym (full_at_receive (Reach-Inv r))) (take t)
Step-Buffer r s_wait_rec = idle
Step-Buffer r (s_enter t) = idle
Step-Buffer r s_post_send = idle
Step-Buffer r s_wait_point = idle
Step-Buffer r s_get_answer = idle
Step-Buffer r s_post_last = idle
Step-Buffer r s_check = idle
Step-Buffer r s_remove = idle
Step-Buffer r r_wait_send = idle
Step-Buffer r r_post_rec = idle
Step-Buffer r r_test = idle
Step-Buffer r r_answer = idle
Step-Buffer r r_post_point = idle
Step-Buffer r r_wait_last = idle
