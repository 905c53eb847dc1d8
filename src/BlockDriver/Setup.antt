-- ===== src/BlockDriver/Setup.antt =====
-- `ramvhd_init` gives back what it took when it fails, and `ramvhd_exit` the rest.
use hdu_os_experiment.Common.{Bool, true, false, ◌||◌, not, ◌≡◌, refl, if◌then◌else◌}
use hdu_os_experiment.BlockDriver.{Held, ramvhd_init, ramvhd_exit}

abbrev pub nothing : Held
nothing = record { buffer = false; major = false; gendisk = false; queue = false; added = false }

abbrev pub everything : Held
everything = record { buffer = true; major = true; gendisk = true; queue = true; added = true }

-- `ramvhd_init` succeeds exactly if the kernel refuses none of its four requests. It then holds all
-- five things, and otherwise none; in both cases `ramvhd_exit` leaves nothing held.
pub ramvhd_init_lem :
    (no_memory no_major no_disk no_queue : Bool)
    → let refused = no_memory || (no_major || (no_disk || no_queue)) in
      (ramvhd_init no_memory no_major no_disk no_queue nothing
        ≡ (not refused, if refused then nothing else everything))
      × (ramvhd_exit (ramvhd_init no_memory no_major no_disk no_queue nothing).1 ≡ nothing)
unfolding ramvhd_init ramvhd_exit
ramvhd_init_lem true m d q = (refl, refl)
ramvhd_init_lem false true d q = (refl, refl)
ramvhd_init_lem false false true q = (refl, refl)
ramvhd_init_lem false false false true = (refl, refl)
ramvhd_init_lem false false false false = (refl, refl)
