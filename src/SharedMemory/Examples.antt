-- ===== src/SharedMemory/Examples.antt =====
-- The start of a run of the two programs of exam4/5.
use hdu_os_experiment.Common.{ℕ, ◌<◌, ◌≡◌, ◌⊎◌, refl, true, false, ◌&&◌, none, []}
use hdu_os_experiment.SharedMemory.{
  sems, open_sem, create_s_m, wait_rec, attach, shm, s_enter, r_open, State, st, sender_step, Step,
  by_sender, Reach, start, later,
}
use hdu_os_experiment.SharedMemory.Ends.{
  IsFinished, Reach-ends, sender_uses, receiver_uses, Reach-exclusive,
}

abbrev entering : State
entering = st (sems true 0 0) (shm [] 1 false) s_enter r_open none none none

four_calls : Reach 4 entering
unfolding sender_step open_sem create_s_m attach wait_rec
four_calls =
    later (later (later (later start (by_sender [] refl)) (by_sender [] refl)) (by_sender [] refl))
      (by_sender [] refl)

Reach-ends_example :
    ((4 < 23) × ((t : State) × Step entering t)) ⊎ ((◌≡◌ {A = ℕ} 4 23) × IsFinished entering)
Reach-ends_example = Reach-ends four_calls

Reach-exclusive_example : sender_uses s_enter && receiver_uses r_open ≡ false
Reach-exclusive_example = Reach-exclusive four_calls
