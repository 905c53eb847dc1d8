-- ===== src/FileSystem/Cd/Leave.antt =====
-- The loop of exam5/File_System/main.cpp that closes all files but the root directory.
use hdu_os_experiment.Common.{
  ℕ, zero, suc, ◌<◌, ◌≡◌, refl, arith, Option, none, some, subst, sym, eq→==, ne→==,
}
use hdu_os_experiment.FileSystem.Oft.{Fs}
use hdu_os_experiment.FileSystem.Open.{my_close}
use hdu_os_experiment.FileSystem.Open.Stack.{IsStack, Popped, my_close-Popped}
use hdu_os_experiment.FileSystem.Cd.{close_all}

-- One round of `close_all`.
close-step :
    (d : ℕ) (r : Option ℕ × Fs) → Popped d r → (r.1.curr_oft_index ≡ d) × IsStack r.1.oft_list d
close-step d (none, s') h = absurd h
close-step d (some pi, s') h = (h.1, h.2)

-- With the slots a stack, the loop that closes all files ends, in as many rounds as there are slots
-- above the root's, with the root directory as the current one and no other slot in use.
pub close_all-root :
    (fuel d : ℕ) (s : Fs)
    → s.curr_oft_index ≡ d
    → IsStack s.oft_list d
    → d < fuel
    → (s' : Fs) × (close_all fuel s ≡ some s') × (s'.curr_oft_index ≡ 0) × IsStack s'.oft_list 0
unfolding close_all
close_all-root zero d s at st h = absurd (omega arith)
close_all-root (suc fuel) zero s at st h = (s, rw (eq→== s.curr_oft_index 0 at) refl, at, st)
close_all-root (suc fuel) (suc d) s at st h =
    let popped = subst (λ c. Popped d (my_close s c)) (sym at) (my_close-Popped s d st) in
    let below = close-step d (my_close s s.curr_oft_index) popped in
    let rest =
      close_all-root fuel d (my_close s s.curr_oft_index).1 below.0 below.1 (omega arith) in
    (rest.0, rw (ne→== s.curr_oft_index 0 (omega (arith, at))) rest.1, rest.2, rest.3)
