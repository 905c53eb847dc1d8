-- ===== src/MessageQueue/Invariant.antt =====
-- The phases of a run, one after another; every reachable state is in one of them.
use hdu_os_experiment.Common.{◌≡◌, true, false, List, [], ◌∷◌, ◌++◌, Bool-cases, inl, inr}
use hdu_os_experiment.Memory.{str_eq}
use hdu_os_experiment.MessageQueue.{
  Text, over_text, is_end, begins_with_over, Sender, wait_rec, enter, send_text, post_send,
  wait_point, get_answer, post_last, check, remove, sender_done, Receiver, wait_send, get_text,
  post_rec, test, answer, post_point, wait_last, receiver_done, State, st, next_round, tested,
  checked, Step, s_wait_rec, s_enter, s_send, s_post_send, s_wait_point, s_get_answer, s_post_last,
  s_check, s_remove, r_wait_send, r_get_text, r_post_rec, r_test, r_answer, r_post_point,
  r_wait_last, Reach, start, later,
}

-- The receiver has nothing at hand.
pub data IsIdle : Receiver → Type 0 where
  at_head : IsIdle wait_send
  at_test : {t : Text} → is_end t ≡ false → IsIdle (test t)

-- The sender has had its answer.
pub data IsAnswered : Sender → Type 0 where
  at_check : IsAnswered (check over_text)
  at_remove : IsAnswered remove
  at_end : IsAnswered sender_done

-- Where the sender is after it has sent a text.
pub data Next : Text → Sender → Type 0 where
  go_on : {t : Text} → is_end t ≡ false → Next t wait_rec
  stop : {t : Text} → is_end t ≡ true → Next t wait_point

pub data Inv : State → Type 0 where
  free : {r : Receiver} {l : List Text} → IsIdle r → Inv (st 1 0 0 [] wait_rec r l l)
  entering : {r : Receiver} {l : List Text} → IsIdle r → Inv (st 0 0 0 [] enter r l l)
  sending :
      {r : Receiver} {l : List Text} {t : Text} → IsIdle r → Inv (st 0 0 0 [] (send_text t) r l l)
  posting :
      {r : Receiver} {l : List Text} {t : Text}
      → IsIdle r
      → Inv (st 0 0 0 (t ∷ []) (post_send (is_end t)) r (l ++ t ∷ []) l)
  posted :
      {s : Sender} {r : Receiver} {l : List Text} {t : Text}
      → Next t s
      → IsIdle r
      → Inv (st 0 1 0 (t ∷ []) s r (l ++ t ∷ []) l)
  taking :
      {s : Sender} {l : List Text} {t : Text}
      → Next t s
      → Inv (st 0 0 0 (t ∷ []) s get_text (l ++ t ∷ []) l)
  taken : {s : Sender} {l : List Text} {t : Text} → Next t s → Inv (st 0 0 0 [] s (post_rec t) l l)
  ending : {l : List Text} {t : Text} → is_end t ≡ true → Inv (st 1 0 0 [] wait_point (test t) l l)
  answering : {l : List Text} → Inv (st 1 0 0 [] wait_point answer l l)
  answered : {l : List Text} → Inv (st 1 0 0 (over_text ∷ []) wait_point post_point l l)
  pointed : {l : List Text} → Inv (st 1 0 1 (over_text ∷ []) wait_point wait_last l l)
  getting : {l : List Text} → Inv (st 1 0 0 (over_text ∷ []) get_answer wait_last l l)
  got : {l : List Text} → Inv (st 1 0 0 [] (post_last over_text) wait_last l l)
  closing : {s : Sender} {l : List Text} → IsAnswered s → Inv (st 1 1 0 [] s wait_last l l)
  closed : {s : Sender} {l : List Text} → IsAnswered s → Inv (st 1 0 0 [] s receiver_done l l)

Next-next_round : (t : Text) → Next t (next_round (is_end t))
Next-next_round t = elim (Bool-cases (is_end t)) [
  | inl last ↦ rw last (stop last)
  | inr more ↦ rw more (go_on more)
]

-- After the receiver has posted, the sender may go on, or waits for the answer.
Inv-posted_rec :
    {s : Sender} {l : List Text} {t : Text} → Next t s → Inv (st 1 0 0 [] s (test t) l l)
Inv-posted_rec (go_on more) = free (at_test more)
Inv-posted_rec (stop last) = ending last

-- The test of the receiver leaves it idle, if the text is not the last.
IsIdle-tested : (t : Text) → is_end t ≡ false → IsIdle (tested t)
IsIdle-tested t e = rw e at_head

IsAnswered-checked : IsAnswered (checked over_text)
unfolding begins_with_over str_eq
IsAnswered-checked = at_remove

Step-Inv : {s t : State} → Step s t → Inv s → Inv t
Step-Inv s_wait_rec (free i) = entering i
Step-Inv (s_enter t) (entering i) = sending i
Step-Inv s_send (sending i) = posting i
Step-Inv s_post_send (posting {t = t} i) = posted (Next-next_round t) i
Step-Inv s_wait_point pointed = getting
Step-Inv s_get_answer getting = got
Step-Inv s_post_last got = closing at_check
Step-Inv s_check (closing at_check) = closing IsAnswered-checked
Step-Inv s_check (closed at_check) = closed IsAnswered-checked
Step-Inv s_remove (closing at_remove) = closing at_end
Step-Inv s_remove (closed at_remove) = closed at_end
Step-Inv r_wait_send (posted e at_head) = taking e
Step-Inv r_get_text (taking e) = taken e
Step-Inv r_post_rec (taken e) = Inv-posted_rec e
Step-Inv r_test (free (at_test e)) = free (IsIdle-tested _ e)
Step-Inv r_test (entering (at_test e)) = entering (IsIdle-tested _ e)
Step-Inv r_test (sending (at_test e)) = sending (IsIdle-tested _ e)
Step-Inv r_test (posting (at_test e)) = posting (IsIdle-tested _ e)
Step-Inv r_test (posted e' (at_test e)) = posted e' (IsIdle-tested _ e)
Step-Inv r_test (ending e) = rw e answering
Step-Inv r_answer answering = answered
Step-Inv r_post_point answered = pointed
Step-Inv r_wait_last (closing i) = closed i
Step-Inv (s_wait_rec {ls = ls}) (closing i) = elim i [ ]
Step-Inv (s_wait_rec {ls = ls}) (closed x14) = elim x14 [ ]
Step-Inv (s_enter {r = r} t) (posted {l = l} e _) = elim e [ ]
Step-Inv (s_enter t) (taking {l = l} e) = elim e [ ]
Step-Inv (s_enter {ls = ls} t) (taken e) = elim e [ ]
Step-Inv (s_enter {ls = ls} t) (closing i) = elim i [ ]
Step-Inv (s_enter {ls = ls} t) (closed x18) = elim x18 [ ]
Step-Inv (s_send {r = r}) (posted {l = l} {t = t} e _) = elim e [ ]
Step-Inv s_send (taking {l = l} {t = t} e) = elim e [ ]
Step-Inv (s_send {t = t} {ls = ls}) (taken e) = elim e [ ]
Step-Inv (s_send {t = t} {ls = ls}) (closing i) = elim i [ ]
Step-Inv (s_send {t = t} {ls = ls}) (closed x19) = elim x19 [ ]
Step-Inv (s_post_send {b = b} {r = r}) (posted {l = l} {t = t} e _) = elim e [ ]
Step-Inv (s_post_send {b = b}) (taking {l = l} {t = t} e) = elim e [ ]
Step-Inv (s_post_send {b = b} {ls = ls}) (taken {t = t} e) = elim e [ ]
Step-Inv (s_post_send {b = b} {ls = ls}) (closing i) = elim i [ ]
Step-Inv (s_post_send {b = b} {ls = ls}) (closed x20) = elim x20 [ ]
Step-Inv (s_get_answer {t = t} {r = r}) (posted {l = l} e _) = elim e [ ]
Step-Inv (s_get_answer {t = t}) (taking {l = l} e) = elim e [ ]
Step-Inv (s_post_last {t = t} {r = r}) (posted {l = l} e _) = elim e [ ]
Step-Inv (s_post_last {t = t}) (taking {l = l} e) = elim e [ ]
Step-Inv (s_post_last {t = t} {ls = ls}) (taken e) = elim e [ ]
Step-Inv (s_post_last {t = t} {ls = ls}) (closing i) = elim i [ ]
Step-Inv (s_post_last {t = t} {ls = ls}) (closed x22) = elim x22 [ ]
Step-Inv (s_check {t = t} {r = r}) (posted {l = l} e _) = elim e [ ]
Step-Inv (s_check {t = t}) (taking {l = l} e) = elim e [ ]
Step-Inv (s_check {t = t} {ls = ls}) (taken e) = elim e [ ]
Step-Inv (s_remove {r = r}) (posted {l = l} {t = t} e _) = elim e [ ]
Step-Inv s_remove (taking {l = l} {t = t} e) = elim e [ ]
Step-Inv (s_remove {ls = ls}) (taken {t = t} e) = elim e [ ]
Step-Inv (r_get_text {t = t}) (posting {l = l} i) = elim i [ ]
Step-Inv (r_get_text {t = t} {s = s}) (posted {l = l} e x32) = elim x32 [ ]
Step-Inv (r_post_rec {t = t} {ls = ls}) (free i) = elim i [ ]
Step-Inv (r_post_rec {t = t} {ls = ls}) (entering i) = elim i [ ]
Step-Inv (r_post_rec {t = t} {ls = ls}) (sending i) = elim i [ ]
Step-Inv r_post_rec (posting {l = l} {t = t} i) = elim i [ ]
Step-Inv (r_post_rec {t = t} {s = s}) (posted {l = l} e x34) = elim x34 [ ]
Step-Inv (r_answer {ls = ls}) (free i) = elim i [ ]
Step-Inv (r_answer {ls = ls}) (entering i) = elim i [ ]
Step-Inv (r_answer {ls = ls}) (sending {t = t} i) = elim i [ ]
Step-Inv r_answer (posting {l = l} {t = t} i) = elim i [ ]
Step-Inv (r_answer {s = s}) (posted {l = l} {t = t} e x35) = elim x35 [ ]
Step-Inv (r_post_point {ls = ls}) (free i) = elim i [ ]
Step-Inv (r_post_point {ls = ls}) (entering i) = elim i [ ]
Step-Inv (r_post_point {ls = ls}) (sending {t = t} i) = elim i [ ]
Step-Inv r_post_point (posting {l = l} {t = t} i) = elim i [ ]
Step-Inv (r_post_point {s = s}) (posted {l = l} {t = t} e x36) = elim x36 [ ]
Step-Inv (r_wait_last {s = s}) (posted {l = l} {t = t} e x33) = elim x33 [ ]

-- Every reachable state is in one of the phases.
pub Reach-Inv : {s : State} → Reach s → Inv s
Reach-Inv start = free at_head
Reach-Inv (later r step) = Step-Inv step (Reach-Inv r)
