-- ===== src/FileSystem/Fcb/Fields.antt =====
-- The fields of an FCB depend on its own 32 bytes.
use hdu_os_experiment.Common.{ℕ, ◌*◌, ◌+◌, ◌≤◌, ◌<◌, ◌≡◌, ◌≢◌, arith, List, inl, refl}
use hdu_os_experiment.Memory.{Mem, get_u16, get_u32}
use hdu_os_experiment.Memory.Laws.{get_u32-set_u32, set_u32_ne}
use hdu_os_experiment.FileSystem.Fcb.{
  attr, in_use, s_block, len, set_len, judge_dir, file_name_match, Tm, update_fcb_time,
}
use hdu_os_experiment.FileSystem.Fcb.Time.{update_fcb_time_out}
use hdu_os_experiment.FileSystem.Fcb.Init.{file_name_match_ext}

-- Two memories hold the same FCB at `p`, but perhaps for the attribute.
abbrev pub SameButAttr : Mem → Mem → ℕ → Type 0
SameButAttr m m' p = (a : ℕ) → p ≤ a → a < p + 32 → a ≢ p + 11 → m a ≡ m' a

module _ (m m' : Mem) (p : ℕ) (same : SameButAttr m m' p) where
  pub in_use_ext : in_use m p ≡ in_use m' p
  unfolding in_use
  in_use_ext = same (p + 12) (omega arith) (omega arith) (omega arith)

  pub s_block_ext : s_block m p ≡ s_block m' p
  unfolding s_block get_u16
  s_block_ext = ground (arith, same (p + 20), same (p + 20 + 1))

  pub len_ext : len m p ≡ len m' p
  unfolding len get_u16 get_u32
  len_ext =
      ground (arith, same (p + 28), same (p + 28 + 1), same (p + 28 + 2), same (p + 28 + 2 + 1))

  pub match_ext : (f e : List ℕ) → file_name_match m p f e ≡ file_name_match m' p f e
  match_ext f e = file_name_match_ext m m' p f e λ a lo hi. same a lo (omega arith) (omega arith)

pub judge_dir_ext : (m m' : Mem) (p : ℕ) → m (p + 11) ≡ m' (p + 11) → judge_dir m p ≡ judge_dir m' p
unfolding judge_dir attr
judge_dir_ext m m' p e = rw e

-- The length alone depends on the last four bytes.
pub len_high_ext :
    (m m' : Mem) (p : ℕ) → ((a : ℕ) → p + 28 ≤ a → a < p + 32 → m a ≡ m' a) → len m p ≡ len m' p
unfolding len get_u16 get_u32
len_high_ext m m' p same =
    ground (arith, same (p + 28), same (p + 28 + 1), same (p + 28 + 2), same (p + 28 + 2 + 1))

pub len-set_len : (m : Mem) (p v : ℕ) → v < 65536 * 65536 → len (set_len m p v) p ≡ v
unfolding len set_len
len-set_len m p v h = get_u32-set_u32 m (p + 28) v h

pub len-update_fcb_time : (m : Mem) (p : ℕ) (t : Tm) → len (update_fcb_time m p t) p ≡ len m p
len-update_fcb_time m p t =
    len_high_ext (update_fcb_time m p t) m p λ a lo hi. update_fcb_time_out m p t a (ground arith)

pub s_block-set_len : (m : Mem) (p v : ℕ) → s_block (set_len m p v) p ≡ s_block m p
unfolding s_block set_len get_u16
s_block-set_len m p v =
    rw
      (
        set_u32_ne m (p + 28) v (p + 20) (inl (omega arith)),
        set_u32_ne m (p + 28) v (p + 20 + 1) (inl (omega arith)),
      )
      refl

pub judge_dir-set_len : (m : Mem) (p v : ℕ) → judge_dir (set_len m p v) p ≡ judge_dir m p
unfolding set_len
judge_dir-set_len m p v =
    judge_dir_ext (set_len m p v) m p (set_u32_ne m (p + 28) v (p + 11) (inl (omega arith)))
