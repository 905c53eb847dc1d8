-- ===== src/BlockDriver/Served.antt =====
-- Every request is answered, if the bios are within the device.
use hdu_os_experiment.Common.{
  ℕ, ◌+◌, ◌*◌, ◌%◌, ◌≤◌, ◌≡◌, refl, arith, Bool, true, false, List, [], ◌∷◌, Bool-cases, inl, inr,
  le→ltb,
}
use hdu_os_experiment.Memory.{Mem}
use hdu_os_experiment.BlockDriver.{
  Bio, Request, Reply, io_error, ended, total_size, word, transfer, do_segments, do_bio, do_bios,
  do_my_blk_request,
}
use hdu_os_experiment.BlockDriver.RoundTrip.{InRange}

-- The replies are one to a request, in order: `-EIO` to one that is not of the file system, 0 to the
-- others.
abbrev pub Answers : List Request → List Reply → Type 0
Answers [] [] = Unit {0}
Answers [] (reply ∷ replies) = ⊥
Answers (r ∷ rs) [] = ⊥
Answers (r ∷ rs) (io_error ∷ replies) = (r.is_fs ≡ false) × Answers rs replies
Answers (r ∷ rs) (ended bios ∷ replies) = (r.is_fs ≡ true) × Answers rs replies

do_segments-in_range :
    (bs : List Mem) (size : ℕ) (w : Bool) (disk : Mem) (pos : ℕ)
    → InRange pos size bs
    → (do_segments size w disk pos bs).in_range ≡ true
unfolding do_segments
do_segments-in_range [] size w disk pos h = refl
do_segments-in_range (b ∷ bs) size w disk pos h =
    rw (no_wrap, le→ltb total_size (pos + size) h.0)
      (do_segments-in_range bs size w (transfer w disk pos size b).0 (pos + size) h.1)
  where
    no_wrap : (pos + size) % word ≡ pos + size
    no_wrap = omega (arith, h.0)

abbrev pub BioInRange : (Bio → ℕ) → Bio → Type 0
BioInRange cur_bytes bio =
    (bio.bi_sector * 512 ≤ total_size) × InRange (bio.bi_sector * 512) (cur_bytes bio) bio.segments

abbrev pub BiosInRange : (Bio → ℕ) → List Bio → Type 0
BiosInRange cur_bytes [] = Unit {0}
BiosInRange cur_bytes (bio ∷ bios) = BioInRange cur_bytes bio × BiosInRange cur_bytes bios

abbrev pub RequestsInRange : (Bio → ℕ) → List Request → Type 0
RequestsInRange cur_bytes [] = Unit {0}
RequestsInRange cur_bytes (r ∷ rs) = BiosInRange cur_bytes r.bios × RequestsInRange cur_bytes rs

do_bio-in_range :
    (cur_bytes : Bio → ℕ) (disk : Mem) (bio : Bio)
    → BioInRange cur_bytes bio
    → (do_bio cur_bytes disk bio).in_range ≡ true
unfolding do_bio
do_bio-in_range cur_bytes disk bio h =
    rw no_wrap (
      do_segments-in_range bio.segments (cur_bytes bio) bio.is_write disk (bio.bi_sector * 512) h.1)
  where
    no_wrap : bio.bi_sector * 512 % word ≡ bio.bi_sector * 512
    no_wrap = omega (arith, h.0)

do_bios-in_range :
    (cur_bytes : Bio → ℕ) (bios : List Bio) (disk : Mem)
    → BiosInRange cur_bytes bios
    → (do_bios cur_bytes disk bios).in_range ≡ true
unfolding do_bios
do_bios-in_range cur_bytes [] disk h = refl
do_bios-in_range cur_bytes (bio ∷ bios) disk h =
    rw (do_bio-in_range cur_bytes disk bio h.0)
      (do_bios-in_range cur_bytes bios (do_bio cur_bytes disk bio).disk h.1)

-- If every bio is within the device, `do_my_blk_request` empties the queue and answers each of its
-- requests, in order: with `-EIO` those that are not of the file system, and with 0 the others.
pub do_my_blk_request-Answers :
    (cur_bytes : Bio → ℕ) (rs : List Request) (disk : Mem)
    → RequestsInRange cur_bytes rs
    → Answers rs (do_my_blk_request cur_bytes disk rs).replies
      × ((do_my_blk_request cur_bytes disk rs).left ≡ [])
unfolding do_my_blk_request
do_my_blk_request-Answers cur_bytes [] disk h = (tt, refl)
do_my_blk_request-Answers cur_bytes (r ∷ rs) disk h = elim (Bool-cases r.is_fs) [
  | inr other ↦
      let rest = do_my_blk_request-Answers cur_bytes rs disk h.1 in
      rw other ((refl, rest.0), rest.1)
  | inl fs ↦
      let rest = do_my_blk_request-Answers cur_bytes rs (do_bios cur_bytes disk r.bios).disk h.1 in
      rw (fs, do_bios-in_range cur_bytes r.bios disk h.0) ((refl, rest.0), rest.1)
]
