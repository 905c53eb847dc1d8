-- ===== src/BlockDriver/Examples.antt =====
-- A block device on which the theorems about exam3/exam3-2/blk_dev.c are applied: bios of one sector
-- a segment.
use hdu_os_experiment.Common.{ℕ, ◌%◌, ◌≡◌, refl, arith, true, false, List, [], ◌∷◌}
use hdu_os_experiment.Memory.{Mem}
use hdu_os_experiment.BlockDriver.{Bio, Request, do_bio, do_my_blk_request}
use hdu_os_experiment.BlockDriver.Bounds.{Kept, do_my_blk_request-Kept}
use hdu_os_experiment.BlockDriver.RoundTrip.{Agree, write_of, read_of, read_back, do_bio-read-write}
use hdu_os_experiment.BlockDriver.Served.{Answers, do_my_blk_request-Answers}

abbrev zeros : Mem
zeros a = 0

abbrev page : Mem
page a = a % 256

abbrev sector_size : Bio → ℕ
sector_size bio = 512

abbrev bios : List Bio
bios = write_of 3 (page ∷ zeros ∷ []) ∷ read_of 4 (zeros ∷ []) ∷ []

abbrev requests : List Request
requests = (record { is_fs = true; bios = bios }) ∷ (record { is_fs = false; bios = bios }) ∷ []

do_my_blk_request-Kept_example : Kept zeros (do_my_blk_request sector_size zeros requests).disk
do_my_blk_request-Kept_example = do_my_blk_request-Kept sector_size requests zeros (omega arith)

do_my_blk_request-Answers_example :
    Answers requests (do_my_blk_request sector_size zeros requests).replies
    × ((do_my_blk_request sector_size zeros requests).left ≡ [])
do_my_blk_request-Answers_example =
    do_my_blk_request-Answers sector_size requests zeros (omega arith)

do_bio-read-write_example :
    ((do_bio sector_size zeros (write_of 3 (page ∷ zeros ∷ []))).in_range ≡ true)
    × ((read_back sector_size zeros 3 (page ∷ zeros ∷ []) (zeros ∷ page ∷ [])).in_range ≡ true)
    × Agree 512
        (read_back sector_size zeros 3 (page ∷ zeros ∷ []) (zeros ∷ page ∷ [])).out.segments
        (page ∷ zeros ∷ [])
do_bio-read-write_example =
    do_bio-read-write sector_size zeros 3 512 (page ∷ zeros ∷ []) (zeros ∷ page ∷ []) refl refl
      (omega arith) (omega arith) tt
