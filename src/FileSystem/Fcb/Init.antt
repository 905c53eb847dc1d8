-- ===== src/FileSystem/Fcb/Init.antt =====
-- What `initFcb` leaves in an FCB.
use hdu_os_experiment.Common.{ℕ, ◌+◌, ◌%◌, ◌≤◌, ◌<◌, ◌≡◌, arith, List, length, ◌∙◌, true, ◌↔◌}
use hdu_os_experiment.Memory.{
  Mem, put, get_u16, set_u16, get_u32, set_u32, memset, strcpy, read_str,
}
use hdu_os_experiment.Memory.Laws.{Outside, set_u32_ne, memset_in, memset_out}
use hdu_os_experiment.Memory.Text.{IsText, strcpy_out, read_str_ext, read_str-strcpy, str_eq_iff}
use hdu_os_experiment.FileSystem.Fcb.{
  Tm, attr, in_use, s_block, len, set_attr, set_len, init_fcb, file_name_match,
}
use hdu_os_experiment.FileSystem.Fcb.Time.{NoTimeField, init_fcb_time_out}

-- A name and an extension that fit their fields, a NUL apart.
pub record IsName (fname ename : List ℕ) : Type 0 where
  pub name_text : IsText fname
  pub ext_text : IsText ename
  pub name_fits : length fname ≤ 8
  pub ext_fits : length ename ≤ 3

module _ (m : Mem) (p : ℕ) (fname ename : List ℕ) (u : ℕ) (t : Tm) (name_fits : length fname ≤ 8)
    (ext_fits : length ename ≤ 3) where
  -- The FCB cleared, with its two texts.
  abbrev named : Mem
  named = strcpy (strcpy (set_len (memset m p 0 32) p 0) p fname) (p + 8) ename

  named_out : (a : ℕ) → Outside a p 32 → named a ≡ m a
  unfolding set_len
  named_out a h =
      strcpy_out _ (p + 8) ename a (ground arith)
      ∙ (strcpy_out _ p fname a (ground arith)
          ∙ (set_u32_ne _ (p + 28) 0 a (ground arith) ∙ memset_out m p 0 32 a h))

  named_rest : (a : ℕ) → p + 12 ≤ a → a < p + 32 → named a ≡ 0
  unfolding set_len set_u32 set_u16 put
  named_rest a lo hi =
      strcpy_out _ (p + 8) ename a (ground arith)
      ∙ (strcpy_out _ p fname a (ground arith)
          ∙ ground (arith, memset_in m p 0 32 a (omega arith) hi))

  -- Nothing outside the 32 bytes is written.
  pub init_fcb_out : (a : ℕ) → Outside a p 32 → init_fcb m p fname ename u t a ≡ m a
  unfolding init_fcb set_attr put
  init_fcb_out a h = init_fcb_time_out _ p t a (ground arith) ∙ ground (arith, named_out a h)

  -- What follows the flag is 0, but for the dates.
  init_fcb_rest :
      (a : ℕ) → p + 13 ≤ a → a < p + 32 → NoTimeField a p → init_fcb m p fname ename u t a ≡ 0
  unfolding init_fcb set_attr put
  init_fcb_rest a lo hi free = init_fcb_time_out _ p t a free ∙ ground (arith, named_rest a)

  pub init_fcb-s_block : s_block (init_fcb m p fname ename u t) p ≡ 0
  unfolding s_block get_u16
  init_fcb-s_block = ground (arith, init_fcb_rest (p + 20), init_fcb_rest (p + 20 + 1))

  pub init_fcb-len : len (init_fcb m p fname ename u t) p ≡ 0
  unfolding len get_u16 get_u32
  init_fcb-len = ground (
    arith,
    init_fcb_rest (p + 28),
    init_fcb_rest (p + 28 + 1),
    init_fcb_rest (p + 28 + 2),
    init_fcb_rest (p + 28 + 2 + 1),
  )

  pub init_fcb-attr : attr (init_fcb m p fname ename u t) p ≡ 0
  unfolding init_fcb attr set_attr put
  init_fcb-attr =
      ground (arith, init_fcb_time_out (put (set_attr named p 0) (p + 12) u) p t (p + 11))

  pub init_fcb-in_use : in_use (init_fcb m p fname ename u t) p ≡ u % 256
  unfolding init_fcb in_use set_attr put
  init_fcb-in_use =
      ground (arith, init_fcb_time_out (put (set_attr named p 0) (p + 12) u) p t (p + 12))

  init_fcb_texts : (a : ℕ) → a < p + 11 → init_fcb m p fname ename u t a ≡ named a
  unfolding init_fcb set_attr put
  init_fcb_texts a h = init_fcb_time_out _ p t a (ground arith) ∙ ground arith

  module _ (name_text : IsText fname) (ext_text : IsText ename) where
    pub init_fcb-filename : read_str (init_fcb m p fname ename u t) p 8 ≡ fname
    init_fcb-filename =
        read_str_ext _ _ p 8 (λ i h.
          init_fcb_texts (p + i) (omega arith) ∙ strcpy_out _ (p + 8) ename (p + i) (ground arith))
        ∙ read_str-strcpy _ p 8 fname name_text name_fits

    init_fcb-exname : read_str (init_fcb m p fname ename u t) (p + 8) 3 ≡ ename
    init_fcb-exname =
        read_str_ext _ _ (p + 8) 3 (λ i h. init_fcb_texts (p + 8 + i) (omega arith))
        ∙ read_str-strcpy _ (p + 8) 3 ename ext_text ext_fits

    -- `fileNameMatch` accepts the FCB that `initFcb` made exactly for the name and the extension
    -- it was given, if these are texts that fit their fields.
    pub file_name_match-init_fcb :
        (f e : List ℕ)
        → (file_name_match (init_fcb m p fname ename u t) p f e ≡ true)
          ↔ ((fname ≡ f) × (ename ≡ e))
    unfolding file_name_match
    file_name_match-init_fcb f e =
        rw (init_fcb-filename, init_fcb-exname)
          (
            λ h. ground (arith, str_eq_iff fname f, str_eq_iff ename e),
            λ h. ground (arith, str_eq_iff fname f, str_eq_iff ename e),
          )

-- The match reads the two texts only.
pub file_name_match_ext :
    (m m' : Mem) (p : ℕ) (f e : List ℕ)
    → ((a : ℕ) → p ≤ a → a < p + 11 → m a ≡ m' a)
    → file_name_match m p f e ≡ file_name_match m' p f e
unfolding file_name_match
file_name_match_ext m m' p f e same = rw (
  read_str_ext m m' p 8 (λ i h. same (p + i) (omega arith) (omega arith)),
  read_str_ext m m' (p + 8) 3 (λ i h. same (p + 8 + i) (omega arith) (omega arith)),
)
