-- ===== src/FileSystem/Format/Root.antt =====
-- The block of a directory as `initFileFCB` writes it: entries "." and "..", and no other in use.
use hdu_os_experiment.Common.{
  ℕ, zero, suc, ◌+◌, ◌*◌, ◌≤◌, ◌<◌, ◌≡◌, refl, arith, ◌∙◌, List, length, inl,
}
use hdu_os_experiment.Memory.{Mem, put, get_u16, set_u16, get_u32, set_u32}
use hdu_os_experiment.Memory.Laws.{Outside, set_u32_ne, set_u16_ne, put_ne}
use hdu_os_experiment.FileSystem.Fcb
use hdu_os_experiment.FileSystem.Fcb.{Tm, set_attr, set_s_block, set_len, init_fcb, init_fcb_time}
use hdu_os_experiment.FileSystem.Fcb.Time.{NoTimeField, init_fcb_time_out}
use hdu_os_experiment.FileSystem.Fcb.Init.{init_fcb_out}
use hdu_os_experiment.FileSystem.Dir.{entry, dir_exname}
use hdu_os_experiment.FileSystem.Dir.Used.{used}
use hdu_os_experiment.FileSystem.Create.{init_dot, clear_uses}

pub used-none :
    (left : ℕ) (m : Mem) (p i : ℕ)
    → ((j : ℕ) → i ≤ j → j < i + left → Fcb.in_use m (entry p j) ≡ 0)
    → used left m p i ≡ 0
used-none zero m p i h = refl
used-none (suc left) m p i h =
    rw
      (
        h i (omega arith) (omega arith),
        used-none left m p (i + 1) (λ j lo hi. h j (omega arith) (omega arith)),
      )
      refl

-- Only flags from `p` on are written.
pub clear_uses_out : (left : ℕ) (m : Mem) (p a : ℕ) → a < p → clear_uses left m p a ≡ m a
unfolding clear_uses
clear_uses_out zero m p a h = refl
clear_uses_out (suc left) m p a h =
    clear_uses_out left (put m (p + 12) 0) (p + 32) a (omega arith)
    ∙ put_ne m (p + 12) 0 a (inl (omega arith))

pub clear_uses-in_use :
    (left : ℕ) (m : Mem) (p q k : ℕ) → k < left → q ≡ p + 32 * k + 12 → clear_uses left m p q ≡ 0
unfolding clear_uses put
clear_uses-in_use zero m p q k h e = absurd (omega arith)
clear_uses-in_use (suc left) m p q zero h e =
    clear_uses_out left (put m (p + 12) 0) (p + 32) q (omega arith) ∙ ground arith
clear_uses-in_use (suc left) m p q (suc k) h e =
    clear_uses-in_use left (put m (p + 12) 0) (p + 32) q k (omega arith) (omega arith)

module _ (m : Mem) (p : ℕ) (name : List ℕ) (attr block_no : ℕ) (t t' : Tm)
    (fits : length name ≤ 8) where
  abbrev plain : Mem
  plain = init_fcb m p name dir_exname 1 t

  abbrev dotted : Mem
  dotted = set_len (set_s_block (set_attr plain p attr) p block_no) p 0

  pub init_dot_out : (a : ℕ) → Outside a p 32 → init_dot m p name attr block_no t t' a ≡ m a
  unfolding init_dot set_len set_s_block set_attr
  init_dot_out a h =
      init_fcb_time_out dotted p t' a (ground arith)
      ∙ (set_u32_ne _ (p + 28) 0 a (ground arith)
          ∙ (set_u16_ne _ (p + 20) block_no a (ground arith)
              ∙ (put_ne _ (p + 11) attr a (ground arith)
                  ∙ init_fcb_out m p name dir_exname 1 t fits (omega arith) a h)))

  init_dot_late : (a : ℕ) → NoTimeField a p → init_dot m p name attr block_no t t' a ≡ dotted a
  unfolding init_dot
  init_dot_late a h = init_fcb_time_out dotted p t' a h

  pub init_dot-attr : attr < 256 → Fcb.attr (init_dot m p name attr block_no t t') p ≡ attr
  unfolding Fcb.attr set_len set_s_block set_attr set_u32 set_u16 put
  init_dot-attr h = ground (arith, init_dot_late (p + 11))

  pub init_dot-s_block :
      block_no < 65536 → Fcb.s_block (init_dot m p name attr block_no t t') p ≡ block_no
  unfolding Fcb.s_block get_u16 set_len set_s_block set_u32 set_u16 put
  init_dot-s_block h = ground (arith, init_dot_late (p + 20), init_dot_late (p + 20 + 1))

  pub init_dot-len : Fcb.len (init_dot m p name attr block_no t t') p ≡ 0
  unfolding Fcb.len get_u32 get_u16 set_len set_u32 set_u16 put
  init_dot-len = ground (
    arith,
    init_dot_late (p + 28),
    init_dot_late (p + 28 + 1),
    init_dot_late (p + 28 + 2),
    init_dot_late (p + 28 + 2 + 1),
  )
