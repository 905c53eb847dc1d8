-- ===== src/FileSystem/Create/Entry.antt =====
-- What `initFileFCB` writes for a data file: the new FCB, the length in the "." entry of the
-- directory, and nothing else.
use hdu_os_experiment.Common.{ℕ, ◌+◌, ◌≤◌, ◌<◌, ◌≡◌, refl, arith, true, List, length, ◌∙◌, ◌↔◌}
use hdu_os_experiment.Memory.{Mem, put, get_u16, set_u16, get_u32, set_u32}
use hdu_os_experiment.Memory.Laws.{Outside, set_u32_ne, set_u16_ne}
use hdu_os_experiment.Memory.Text.{IsText}
use hdu_os_experiment.FileSystem.Fcb
use hdu_os_experiment.FileSystem.Fcb.{
  Tm, set_attr, set_s_block, set_len, init_fcb, init_fcb_time, judge_dir, file_name_match,
}
use hdu_os_experiment.FileSystem.Fcb.Time.{NoTimeField, init_fcb_time_out}
use hdu_os_experiment.FileSystem.Fcb.Init.{
  init_fcb_out, init_fcb-attr, init_fcb-in_use, file_name_match-init_fcb, file_name_match_ext,
}
use hdu_os_experiment.FileSystem.Create.{init_entry}

module _ (m : Mem) (parent p block_no : ℕ) (fname ename : List ℕ) (clock : ℕ → Tm)
    (apart : parent + 32 ≤ p) (name_fits : length fname ≤ 8) (ext_fits : length ename ≤ 3) where
  abbrev blank : Mem
  blank = init_fcb m p fname ename 1 (clock 0)

  abbrev linked : Mem
  linked = set_len (set_s_block (set_len blank parent (Fcb.len blank parent + 32)) p block_no) p 0

  -- Only the entry and the length of the directory are written.
  pub init_entry_out :
      (a : ℕ)
      → Outside a p 32
      → Outside a (parent + 28) 4
      → init_entry m parent p block_no fname ename clock a ≡ m a
  unfolding init_entry set_len set_s_block
  init_entry_out a h h' =
      init_fcb_time_out linked p (clock 1) a (ground arith)
      ∙ (set_u32_ne _ (p + 28) 0 a (ground arith)
          ∙ (set_u16_ne _ (p + 20) block_no a (ground arith)
              ∙ (set_u32_ne blank (parent + 28) (Fcb.len blank parent + 32) a h'
                  ∙ init_fcb_out m p fname ename 1 (clock 0) name_fits ext_fits a h)))

  -- The bytes of the entry up to its dates are those of `initFcb`.
  init_entry_low :
      (a : ℕ) → p ≤ a → a < p + 13 → init_entry m parent p block_no fname ename clock a ≡ blank a
  unfolding init_entry set_len set_s_block
  init_entry_low a lo hi =
      init_fcb_time_out linked p (clock 1) a (ground arith)
      ∙ (set_u32_ne _ (p + 28) 0 a (ground arith)
          ∙ (set_u16_ne _ (p + 20) block_no a (ground arith)
              ∙ set_u32_ne blank (parent + 28) (Fcb.len blank parent + 32) a (ground arith)))

  pub init_entry-in_use : Fcb.in_use (init_entry m parent p block_no fname ename clock) p ≡ 1
  unfolding Fcb.in_use
  init_entry-in_use =
      init_entry_low (p + 12) (omega arith) (omega arith)
      ∙ (init_fcb-in_use m p fname ename 1 (clock 0) name_fits ext_fits ∙ refl)

  pub init_entry-attr : Fcb.attr (init_entry m parent p block_no fname ename clock) p ≡ 0
  unfolding Fcb.attr
  init_entry-attr =
      init_entry_low (p + 11) (omega arith) (omega arith)
      ∙ init_fcb-attr m p fname ename 1 (clock 0) name_fits ext_fits

  init_entry_late :
      (a : ℕ) → NoTimeField a p → init_entry m parent p block_no fname ename clock a ≡ linked a
  unfolding init_entry
  init_entry_late a h = init_fcb_time_out linked p (clock 1) a h

  pub init_entry-s_block :
      block_no < 65536 → Fcb.s_block (init_entry m parent p block_no fname ename clock) p ≡ block_no
  unfolding Fcb.s_block get_u16 set_len set_s_block set_u32 set_u16 put
  init_entry-s_block h = ground (arith, init_entry_late (p + 20), init_entry_late (p + 20 + 1))

  pub init_entry-len : Fcb.len (init_entry m parent p block_no fname ename clock) p ≡ 0
  unfolding Fcb.len get_u32 get_u16 set_len set_u32 set_u16 put
  init_entry-len = ground (
    arith,
    init_entry_late (p + 28),
    init_entry_late (p + 28 + 1),
    init_entry_late (p + 28 + 2),
    init_entry_late (p + 28 + 2 + 1),
  )

  module _ (name_text : IsText fname) (ext_text : IsText ename) where
    pub init_entry-match :
        (f e : List ℕ)
        → (file_name_match (init_entry m parent p block_no fname ename clock) p f e ≡ true)
          ↔ ((fname ≡ f) × (ename ≡ e))
    init_entry-match f e =
        rw (file_name_match_ext _ blank p f e λ a lo hi. init_entry_low a lo (omega arith)) (
          file_name_match-init_fcb m p fname ename 1 (clock 0) name_fits ext_fits name_text ext_text
            f e)
