-- ===== src/MessageQueue/Examples.antt =====
-- A run in which "exit" is typed at once.
use hdu_os_experiment.Common.{◌≡◌, ◌⊎◌, List, [], ◌∷◌}
use hdu_os_experiment.Memory.{str_eq}
use hdu_os_experiment.MessageQueue.{
  Text, exit_text, end_text, sent_text, wait_point, wait_send, State, st, Step, s_wait_rec, s_enter,
  s_send, s_post_send, r_wait_send, Reach, start, later,
}
use hdu_os_experiment.MessageQueue.Safety.{IsFinished, no_deadlock, received-sent}
use hdu_os_experiment.MessageQueue.Refinement.{Buffer, Step-Buffer}

-- The text is in the queue, and the receiver has not yet begun.
half : Reach (st 0 1 0 (end_text ∷ []) wait_point wait_send (end_text ∷ []) [])
unfolding sent_text str_eq
half = later (later (later (later start s_wait_rec) (s_enter exit_text)) s_send) s_post_send

no_deadlock_example :
    IsFinished (st 0 1 0 (end_text ∷ []) wait_point wait_send (end_text ∷ []) [])
    ⊎ ((t : State) × Step (st 0 1 0 (end_text ∷ []) wait_point wait_send (end_text ∷ []) []) t)
no_deadlock_example = no_deadlock half

received-sent_example :
    ◌≡◌ {A = List Text} (end_text ∷ []) []
    ⊎ ((t : Text) × (◌≡◌ {A = List Text} (end_text ∷ []) (t ∷ [])))
received-sent_example = received-sent half

Step-Buffer_example : Buffer (end_text ∷ []) [] (end_text ∷ []) []
Step-Buffer_example = Step-Buffer half r_wait_send
