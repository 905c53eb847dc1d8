-- ===== src/CharDriver/Setup.antt =====
-- `char_dev_init` gives back what it took when it fails, and `char_dev_exit` the rest.
use hdu_os_experiment.Common.{Bool, true, false, ◌||◌, not, ◌≡◌, refl, if◌then◌else◌}
use hdu_os_experiment.CharDriver.{Held, char_dev_init, char_dev_exit}

abbrev pub nothing : Held
nothing = record { number = false; memory = false; device = false }

abbrev pub everything : Held
everything = record { number = true; memory = true; device = true }

-- `char_dev_init` succeeds exactly if the kernel refuses none of its three requests. It then holds all
-- three things, and otherwise none of them; in both cases `char_dev_exit` leaves nothing held.
pub char_dev_init_lem :
    (no_number no_memory no_device : Bool)
    → let refused = no_number || (no_memory || no_device) in
      (char_dev_init no_number no_memory no_device nothing
        ≡ (not refused, if refused then nothing else everything))
      × (char_dev_exit (char_dev_init no_number no_memory no_device nothing).1 ≡ nothing)
unfolding char_dev_init char_dev_exit
char_dev_init_lem true m d = (refl, refl)
char_dev_init_lem false true d = (refl, refl)
char_dev_init_lem false false true = (refl, refl)
char_dev_init_lem false false false = (refl, refl)
