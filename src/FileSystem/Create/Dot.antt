-- ===== src/FileSystem/Create/Dot.antt =====
-- The entries "." and ".." of a new directory, and the flags of its other entries.
use hdu_os_experiment.Common.{
  ℕ, zero, suc, ◌+◌, ◌*◌, ◌≤◌, ◌<◌, ◌≡◌, ◌≢◌, refl, arith, true, List, length, ◌∙◌, ◌↔◌, ap,
}
use hdu_os_experiment.Memory.{Mem, put, get_u16, set_u16, get_u32, set_u32}
use hdu_os_experiment.Memory.Laws.{Outside, set_u32_ne, set_u16_ne, put_ne}
use hdu_os_experiment.Memory.Text.{IsText}
use hdu_os_experiment.FileSystem.Fcb
use hdu_os_experiment.FileSystem.Fcb.{
  Tm, set_attr, set_s_block, set_len, init_fcb, init_fcb_time, file_name_match,
}
use hdu_os_experiment.FileSystem.Fcb.Time.{NoTimeField, init_fcb_time_out}
use hdu_os_experiment.FileSystem.Fcb.Init.{
  init_fcb_out, init_fcb-in_use, file_name_match-init_fcb, file_name_match_ext,
}
use hdu_os_experiment.FileSystem.Fcb.Fields.{
  SameButAttr, in_use_ext, s_block_ext, len_ext, match_ext,
}
use hdu_os_experiment.FileSystem.Dir.{dir_exname}
use hdu_os_experiment.FileSystem.Create.{init_dot, clear_uses}

-- The FCB at `p` is that of a directory entry of this name, on this block, with the length 0.
pub record IsDot (m : Mem) (p : ℕ) (name : List ℕ) (attr block_no : ℕ) : Type 0 where
  pub in_use : Fcb.in_use m p ≡ 1
  pub kind : Fcb.attr m p ≡ attr
  pub block : Fcb.s_block m p ≡ block_no
  pub empty : Fcb.len m p ≡ 0
  pub text : (f e : List ℕ) → (file_name_match m p f e ≡ true) ↔ ((name ≡ f) × (dir_exname ≡ e))

module _ (m : Mem) (p : ℕ) (name : List ℕ) (attr block_no : ℕ) (t t' : Tm) (is_text : IsText name)
    (fits : length name ≤ 8) (byte : attr < 256) (short : block_no < 65536) where
  abbrev blank : Mem
  blank = init_fcb m p name dir_exname 1 t

  abbrev linked : Mem
  linked = set_len (set_s_block (set_attr blank p attr) p block_no) p 0

  abbrev made : Mem
  made = init_dot m p name attr block_no t t'

  linked_out : (a : ℕ) → Outside a p 32 → linked a ≡ blank a
  unfolding set_len set_s_block set_attr
  linked_out a h =
      set_u32_ne _ (p + 28) 0 a (ground arith)
      ∙ (set_u16_ne _ (p + 20) block_no a (ground arith)
          ∙ put_ne blank (p + 11) attr a (ground arith))

  -- Only the 32 bytes of the entry are written.
  pub init_dot_out : (a : ℕ) → Outside a p 32 → made a ≡ m a
  unfolding init_dot
  init_dot_out a h =
      init_fcb_time_out linked p t' a (ground arith)
      ∙ (linked_out a h ∙ init_fcb_out m p name dir_exname 1 t fits (omega arith) a h)

  made_late : (a : ℕ) → NoTimeField a p → made a ≡ linked a
  unfolding init_dot
  made_late a h = init_fcb_time_out linked p t' a h

  made_low : (a : ℕ) → p ≤ a → a < p + 13 → a ≢ p + 11 → made a ≡ blank a
  unfolding set_len set_s_block set_attr
  made_low a lo hi ne =
      made_late a (ground arith)
      ∙ (set_u32_ne _ (p + 28) 0 a (ground arith)
          ∙ (set_u16_ne _ (p + 20) block_no a (ground arith)
              ∙ put_ne blank (p + 11) attr a (ground arith)))

  made-in_use : Fcb.in_use made p ≡ 1
  unfolding Fcb.in_use
  made-in_use =
      made_low (p + 12) (omega arith) (omega arith) (omega arith)
      ∙ (init_fcb-in_use m p name dir_exname 1 t fits (omega arith) ∙ refl)

  made-attr : Fcb.attr made p ≡ attr
  unfolding Fcb.attr set_len set_s_block set_attr set_u32 set_u16 put
  made-attr = ground (arith, made_late (p + 11))

  made-s_block : Fcb.s_block made p ≡ block_no
  unfolding Fcb.s_block get_u16 set_len set_s_block set_u32 set_u16 put
  made-s_block = ground (arith, made_late (p + 20), made_late (p + 20 + 1))

  made-len : Fcb.len made p ≡ 0
  unfolding Fcb.len get_u32 get_u16 set_len set_u32 set_u16 put
  made-len = ground (
    arith,
    made_late (p + 28),
    made_late (p + 28 + 1),
    made_late (p + 28 + 2),
    made_late (p + 28 + 2 + 1),
  )

  made-text : (f e : List ℕ) → (file_name_match made p f e ≡ true) ↔ ((name ≡ f) × (dir_exname ≡ e))
  made-text f e =
      rw (file_name_match_ext _ blank p f e λ a lo hi. made_low a lo (omega arith) (omega arith)) (
        file_name_match-init_fcb m p name dir_exname 1 t fits (omega arith) is_text (omega arith) f
          e)

  pub init_dot-IsDot : IsDot made p name attr block_no
  init_dot-IsDot = record {
    in_use = made-in_use;
    kind = made-attr;
    block = made-s_block;
    empty = made-len;
    text = made-text;
  }

-- The bytes that `clear_uses` does not write.
pub clear_uses_out :
    (left : ℕ) (m : Mem) (p a : ℕ)
    → ((k : ℕ) → k < left → a ≢ p + 32 * k + 12)
    → clear_uses left m p a ≡ m a
unfolding clear_uses put
clear_uses_out zero m p a h = refl
clear_uses_out (suc left) m p a h =
    clear_uses_out left (put m (p + 12) 0) (p + 32) a
      (λ k lt e. h (suc k) (omega arith) (omega (arith, e)))
    ∙ put_ne m (p + 12) 0 a (ground (arith, h 0))

-- The flags that it clears.
pub clear_uses_in :
    (left : ℕ) (m : Mem) (p k : ℕ) → k < left → clear_uses left m p (p + 32 * k + 12) ≡ 0
unfolding clear_uses put
clear_uses_in zero m p k h = absurd (omega arith)
clear_uses_in (suc left) m p zero h =
    clear_uses_out left (put m (p + 12) 0) (p + 32) (p + 32 * 0 + 12) (λ k lt e. omega (arith, e))
    ∙ ground arith
clear_uses_in (suc left) m p (suc k) h =
    ap (clear_uses left (put m (p + 12) 0) (p + 32)) (omega arith)
    ∙ clear_uses_in left (put m (p + 12) 0) (p + 32) k (omega arith)

-- It depends on the 32 bytes alone.
pub IsDot-ext :
    (m m' : Mem) (p : ℕ) (name : List ℕ) (attr block_no : ℕ)
    → ((a : ℕ) → p ≤ a → a < p + 32 → m' a ≡ m a)
    → IsDot m p name attr block_no
    → IsDot m' p name attr block_no
unfolding Fcb.attr
IsDot-ext m m' p name attr block_no same h =
    let bytes : SameButAttr m' m p = λ a lo hi ne. same a lo hi in
    record {
      in_use = in_use_ext m' m p bytes ∙ h.in_use;
      kind = same (p + 11) (omega arith) (omega arith) ∙ h.kind;
      block = s_block_ext m' m p bytes ∙ h.block;
      empty = len_ext m' m p bytes ∙ h.empty;
      text = λ f e. rw (match_ext m' m p bytes f e) (h.text f e);
    }
