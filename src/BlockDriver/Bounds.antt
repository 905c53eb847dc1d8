-- ===== src/BlockDriver/Bounds.antt =====
-- No request writes outside the memory of the device.
use hdu_os_experiment.Common.{
  ℕ, ◌+◌, ◌*◌, ◌/◌, ◌%◌, ◌≤◌, ◌<◌, ◌≡◌, refl, arith, Bool, true, false, List, [], ◌∷◌, ltb,
  Bool-cases, inl, inr, ◌∙◌,
}
use hdu_os_experiment.Memory.{Mem}
use hdu_os_experiment.Memory.Laws.{memcpy_out}
use hdu_os_experiment.BlockDriver.{
  Bio, Request, total_size, word, transfer, do_segments, do_bio, do_bios, do_my_blk_request,
}

-- Nothing past the end of the device differs.
abbrev pub Kept : Mem → Mem → Type 0
Kept m m' = (x : ℕ) → total_size ≤ x → m' x ≡ m x

transfer-Kept :
    (w : Bool) (disk : Mem) (pos size : ℕ) (buffer : Mem)
    → pos + size ≤ total_size
    → Kept disk (transfer w disk pos size buffer).0
unfolding transfer
transfer-Kept true disk pos size buffer h x past =
    memcpy_out disk pos buffer 0 size x (inr (omega arith))
transfer-Kept false disk pos size buffer h x past = refl

do_segments-Kept :
    (bs : List Mem) (size : ℕ) (w : Bool) (disk : Mem) (pos : ℕ)
    → pos + size < word
    → size ≤ word / 2
    → Kept disk (do_segments size w disk pos bs).disk
unfolding do_segments
do_segments-Kept [] size w disk pos h h' x past = refl
do_segments-Kept (b ∷ bs) size w disk pos h h' x past =
    elim (Bool-cases (ltb total_size ((pos + size) % word))) [
      | inl out ↦ rw out refl
      | inr fits ↦ rw fits (
          do_segments-Kept bs size w (transfer w disk pos size b).0 ((pos + size) % word)
            (ground arith) h' x past
          ∙ transfer-Kept w disk pos size b (ground arith) x past)
    ]

-- The first byte and the size of each segment do not wrap around.
abbrev pub Sane : (Bio → ℕ) → Bio → Type 0
Sane cur_bytes bio = (bio.bi_sector * 512 + cur_bytes bio < word) × (cur_bytes bio ≤ word / 2)

abbrev pub AllSane : (Bio → ℕ) → List Bio → Type 0
AllSane cur_bytes [] = Unit {0}
AllSane cur_bytes (bio ∷ bios) = Sane cur_bytes bio × AllSane cur_bytes bios

do_bio-Kept :
    (cur_bytes : Bio → ℕ) (disk : Mem) (bio : Bio)
    → Sane cur_bytes bio
    → Kept disk (do_bio cur_bytes disk bio).disk
unfolding do_bio
do_bio-Kept cur_bytes disk bio h x past =
    do_segments-Kept bio.segments (cur_bytes bio) bio.is_write disk (bio.bi_sector * 512 % word)
      (ground arith) h.1 x past

do_bios-Kept :
    (cur_bytes : Bio → ℕ) (bios : List Bio) (disk : Mem)
    → AllSane cur_bytes bios
    → Kept disk (do_bios cur_bytes disk bios).disk
unfolding do_bios
do_bios-Kept cur_bytes [] disk h x past = refl
do_bios-Kept cur_bytes (bio ∷ bios) disk h x past =
    let one = do_bio-Kept cur_bytes disk bio h.0 x past in
    elim (Bool-cases (do_bio cur_bytes disk bio).in_range) [
      | inl good ↦
          rw good (do_bios-Kept cur_bytes bios (do_bio cur_bytes disk bio).disk h.1 x past ∙ one)
      | inr bad ↦ rw bad one
    ]

abbrev pub AllRequestsSane : (Bio → ℕ) → List Request → Type 0
AllRequestsSane cur_bytes [] = Unit {0}
AllRequestsSane cur_bytes (r ∷ rs) = AllSane cur_bytes r.bios × AllRequestsSane cur_bytes rs

-- If the offset of no bio wraps around, `do_my_blk_request` changes no byte past the end of the
-- device, whatever the requests ask for.
pub do_my_blk_request-Kept :
    (cur_bytes : Bio → ℕ) (rs : List Request) (disk : Mem)
    → AllRequestsSane cur_bytes rs
    → Kept disk (do_my_blk_request cur_bytes disk rs).disk
unfolding do_my_blk_request
do_my_blk_request-Kept cur_bytes [] disk h x past = refl
do_my_blk_request-Kept cur_bytes (r ∷ rs) disk h x past =
    let done = do_bios-Kept cur_bytes r.bios disk h.0 x past in
    elim (Bool-cases r.is_fs) [
      | inr other ↦ rw other (do_my_blk_request-Kept cur_bytes rs disk h.1 x past)
      | inl fs ↦ elim (Bool-cases (do_bios cur_bytes disk r.bios).in_range) [
        | inl good ↦
            rw (fs, good)
              (do_my_blk_request-Kept cur_bytes rs (do_bios cur_bytes disk r.bios).disk h.1 x past
                ∙ done)
        | inr bad ↦ rw (fs, bad) done
      ]
    ]
