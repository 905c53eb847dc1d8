-- ===== src/Pipe/Examples.antt =====
-- A run of exam4/3/pipe.c in which the first child writes at once.
use hdu_os_experiment.Common.{ℕ, ◌<◌, ◌≡◌, ◌⊎◌, refl, [], ◌∷◌}
use hdu_os_experiment.Pipe.{
  child1, same, set_child, closing, printing, writing, exiting, announced, message, fork2, State,
  init, parent_step, child_step, Step, by_parent, by_child, Reach, start, later,
}
use hdu_os_experiment.Pipe.Ends.{IsFinished, Reach-finishes}

abbrev after_four : State
after_four = record init {
  pipe = message child1;
  children =
      set_child
        (set_child (set_child (set_child init.children child1 closing) child1 printing) child1
          writing)
        child1 exiting;
  parent = fork2;
  written = child1 ∷ [];
  printed = announced child1 ∷ [];
}

four_steps : Reach 4 after_four
unfolding parent_step child_step set_child same
four_steps =
    later
      (later (later (later start (by_parent refl)) (by_child child1 refl)) (by_child child1 refl))
      (by_child child1 refl)

Reach-finishes_example :
    ((4 < 23) × ((t : State) × Step after_four t)) ⊎ (◌≡◌ {A = ℕ} 4 23 × IsFinished after_four)
Reach-finishes_example = Reach-finishes four_steps
