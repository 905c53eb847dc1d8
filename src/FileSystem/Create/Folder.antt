-- ===== src/FileSystem/Create/Folder.antt =====
-- `createfile` of a directory.
use hdu_os_experiment.Common.{
  ℕ, ◌+◌, ◌-◌, ◌*◌, ◌≤◌, ◌<◌, ◌≡◌, ◌≢◌, refl, arith, true, List, [], ◌∷◌, ◌∙◌, inl, inr, Bool-cases,
  ◌==◌, if◌then◌else◌, eq→==, ne→==, ap,
}
use hdu_os_experiment.Memory.{Mem, put}
use hdu_os_experiment.Memory.Laws.{Outside, get_u32-set_u32, set_u32_ne}
use hdu_os_experiment.FileSystem.Fcb
use hdu_os_experiment.FileSystem.Fcb.{set_attr, set_len, judge_dir, file_name_match}
use hdu_os_experiment.FileSystem.Fcb.Init.{IsName}
use hdu_os_experiment.FileSystem.Fcb.Fields.{
  SameButAttr, in_use_ext, s_block_ext, len_ext, match_ext,
}
use hdu_os_experiment.FileSystem.Fat.{get_block_ptr, next_num, set_next, sync_fat2, end_mark}
use hdu_os_experiment.FileSystem.Fat.Entry.{next_num-set_next, set_next_out}
use hdu_os_experiment.FileSystem.Fat.Mirror.{
  IsMirrored, next_num_ext, sync_fat2_out, sync_fat2-IsMirrored, IsMirrored-ext,
}
use hdu_os_experiment.FileSystem.Dir.{entry, dir_exname}
use hdu_os_experiment.FileSystem.Oft.{Fs, set_oft}
use hdu_os_experiment.FileSystem.Create.{init_entry, init_dot, clear_uses, init_file_fcb, create_at}
use hdu_os_experiment.FileSystem.Create.Entry.{
  init_entry_out, init_entry-in_use, init_entry-attr, init_entry-s_block, init_entry-len,
  init_entry-match,
}
use hdu_os_experiment.FileSystem.Create.Dot.{
  IsDot, IsDot-ext, init_dot_out, init_dot-IsDot, clear_uses_out, clear_uses_in,
}
use hdu_os_experiment.FileSystem.Create.File.{
  current, here, in_parent, InDirectory, Spared, OneMore, create_at-OneMore,
}

-- In `s'` entry `i` of the directory is a new directory on block `b`, with its entries "." and ".." and
-- no other.
pub record NewFolder (s s' : Fs) (fname : List ℕ) (i b : ℕ) : Type 0 where
  pub itself : IsDot s'.vd (entry (get_block_ptr (here s)) i) fname 8 b
  pub dot : IsDot s'.vd (get_block_ptr b) (b'.' ∷ []) 8 b
  pub dot_dot : IsDot s'.vd (entry (get_block_ptr b) 1) (b'.' ∷ b'.' ∷ []) 8 (here s)
  pub no_other : (k : ℕ) → 2 ≤ k → k < 32 → Fcb.in_use s'.vd (entry (get_block_ptr b) k) ≡ 0
  pub allocated : next_num s'.vd b ≡ end_mark
  pub other_blocks : (j : ℕ) → j < 1024 → j ≢ b → next_num s'.vd j ≡ next_num s.vd j
  pub mirrored : IsMirrored s'.vd
  pub elsewhere : (a : ℕ) → Spared s i a → Outside a (get_block_ptr b) 1024 → s'.vd a ≡ s.vd a
  pub one_more : OneMore s s'
  pub longer : Fcb.len (s'.oft_list s.curr_oft_index).fcb 0 ≡ Fcb.len (current s).fcb 0 + 32
  pub other_files : (j : ℕ) → j ≢ s.curr_oft_index → s'.oft_list j ≡ s.oft_list j

module _ (s : Fs) (fname : List ℕ) (i b : ℕ) (dir : InDirectory s) (names : IsName fname dir_exname)
    (i_low : 2 ≤ i) (i_high : i < 32) (b_low : 5 ≤ b) (b_high : b < 1024) (not_here : b ≢ here s)
    (not_parent : b ≢ (current s).fdt.pdf_block_no) where
  abbrev p : ℕ
  p = entry (get_block_ptr (here s)) i

  abbrev child : ℕ
  child = get_block_ptr b

  abbrev synced : Mem
  synced = sync_fat2 (set_next s.vd b end_mark)

  abbrev entered : Mem
  entered = init_entry synced (get_block_ptr (here s)) p b fname dir_exname s.clock

  abbrev marked : Mem
  marked = set_attr entered p (Fcb.attr entered p + 8)

  abbrev dotted : Mem
  dotted = init_dot marked child (b'.' ∷ []) 8 b (s.clock 2) (s.clock 3)

  abbrev dots : Mem
  dots = init_dot dotted (child + 32) (b'.' ∷ b'.' ∷ []) 8 (here s) (s.clock 4) (s.clock 5)

  abbrev cleared : Mem
  cleared = clear_uses 30 dots (child + 32 + 32)

  abbrev pub folder_result : Fs
  folder_result = create_at s i b fname dir_exname true

  init_file_fcb-cleared : init_file_fcb synced (here s) i b fname dir_exname true s.clock ≡ cleared
  unfolding init_file_fcb
  init_file_fcb-cleared = rw (init_file_fcb, ne→== b (here s) not_here) refl

  abbrev longer_parent : Mem
  longer_parent = set_len cleared (in_parent s) (Fcb.len cleared (in_parent s) + 32)

  result-vd :
      folder_result.vd ≡ (if (current s).fdt.pdf_block_no == here s then cleared else longer_parent)
  unfolding create_at
  result-vd = rw (create_at, init_file_fcb-cleared) refl

  result_out : (a : ℕ) → Outside a (in_parent s + 28) 4 → folder_result.vd a ≡ cleared a
  unfolding set_len
  result_out a h = elim (Bool-cases ((current s).fdt.pdf_block_no == here s)) [
    | inl root ↦ rw (result-vd, root) refl
    | inr sub ↦ rw (result-vd, sub) (set_u32_ne cleared (in_parent s + 28) _ a h)
  ]

  result_entry : (a : ℕ) → p ≤ a → a < p + 32 → folder_result.vd a ≡ cleared a
  unfolding set_len
  result_entry a lo hi = elim (Bool-cases ((current s).fdt.pdf_block_no == here s)) [
    | inl root ↦ rw (result-vd, root) refl
    | inr sub ↦
        rw (result-vd, sub)
          (set_u32_ne cleared (in_parent s + 28) _ a (ground (arith, dir.parent_entry)))
  ]

  -- The new block holds what was written into it.
  result_child : (a : ℕ) → child ≤ a → a < child + 1024 → folder_result.vd a ≡ cleared a
  result_child a lo hi = result_out a (ground (arith, dir.parent_entry))

  cleared_out : (a : ℕ) → Outside a child 1024 → cleared a ≡ marked a
  cleared_out a h =
      clear_uses_out 30 dots (child + 32 + 32) a (λ k lt e. ground arith)
      ∙ (init_dot_out dotted (child + 32) (b'.' ∷ b'.' ∷ []) 8 (here s) (s.clock 4) (s.clock 5)
            (omega arith) (omega arith) (omega arith) (omega (arith, dir.block_high)) a
            (ground arith)
          ∙ init_dot_out marked child (b'.' ∷ []) 8 b (s.clock 2) (s.clock 3) (omega arith)
              (omega arith) (omega arith) (omega arith) a (ground arith))

  marked_out :
      (a : ℕ) → Outside a p 32 → Outside a (get_block_ptr (here s) + 28) 4 → marked a ≡ synced a
  unfolding set_attr put
  marked_out a h h' =
      let rest =
        init_entry_out synced (get_block_ptr (here s)) p b fname dir_exname s.clock (omega arith)
          names.name_fits names.ext_fits a h h' in
      ground (arith, rest)

  kept : SameButAttr marked entered p
  unfolding set_attr put
  kept a lo hi ne = ground arith

  marked-IsDot : IsDot marked p fname 8 b
  unfolding set_attr put Fcb.attr
  marked-IsDot = record {
    in_use =
        in_use_ext marked entered p kept
        ∙ init_entry-in_use synced (get_block_ptr (here s)) p b fname dir_exname s.clock
            (omega arith) names.name_fits names.ext_fits;
    kind = ground (
      arith,
      init_entry-attr synced (get_block_ptr (here s)) p b fname dir_exname s.clock (omega arith)
          names.name_fits names.ext_fits,
    );
    block =
        s_block_ext marked entered p kept
        ∙ init_entry-s_block synced (get_block_ptr (here s)) p b fname dir_exname s.clock
            (omega arith) names.name_fits names.ext_fits (omega arith);
    empty =
        len_ext marked entered p kept
        ∙ init_entry-len synced (get_block_ptr (here s)) p b fname dir_exname s.clock (omega arith)
            names.name_fits names.ext_fits;
    text = λ f e. rw (match_ext marked entered p kept f e) (
        init_entry-match synced (get_block_ptr (here s)) p b fname dir_exname s.clock (omega arith)
          names.name_fits names.ext_fits names.name_text names.ext_text f e);
  }

  result-itself : IsDot folder_result.vd p fname 8 b
  result-itself =
      IsDot-ext marked folder_result.vd p fname 8 b
        (λ a lo hi. result_entry a lo hi ∙ cleared_out a (ground arith)) marked-IsDot

  cleared-dots : (a : ℕ) → child ≤ a → a < child + 64 → cleared a ≡ dots a
  cleared-dots a lo hi = clear_uses_out 30 dots (child + 32 + 32) a (λ k lt e. omega (arith, e))

  result-dot : IsDot folder_result.vd child (b'.' ∷ []) 8 b
  result-dot =
      IsDot-ext dotted folder_result.vd child (b'.' ∷ []) 8 b
        (λ a lo hi.
          result_child a lo (omega arith)
          ∙ (cleared-dots a lo (omega arith)
              ∙ init_dot_out dotted (child + 32) (b'.' ∷ b'.' ∷ []) 8 (here s) (s.clock 4)
                  (s.clock 5) (omega arith) (omega arith) (omega arith)
                  (omega (arith, dir.block_high)) a (inl (omega arith))))
        (init_dot-IsDot marked child (b'.' ∷ []) 8 b (s.clock 2) (s.clock 3) (omega arith)
          (omega arith) (omega arith) (omega arith))

  result-dot_dot : IsDot folder_result.vd (entry child 1) (b'.' ∷ b'.' ∷ []) 8 (here s)
  result-dot_dot =
      IsDot-ext dots folder_result.vd (child + 32) (b'.' ∷ b'.' ∷ []) 8 (here s)
        (λ a lo hi.
          result_child a (omega arith) (omega arith) ∙ cleared-dots a (omega arith) (omega arith))
        (init_dot-IsDot dotted (child + 32) (b'.' ∷ b'.' ∷ []) 8 (here s) (s.clock 4) (s.clock 5)
          (omega arith) (omega arith) (omega arith) (omega (arith, dir.block_high)))

  result-no_other : (k : ℕ) → 2 ≤ k → k < 32 → Fcb.in_use folder_result.vd (entry child k) ≡ 0
  unfolding Fcb.in_use
  result-no_other k lo hi =
      result_child (entry child k + 12) (omega arith) (omega arith)
      ∙ (ap cleared at ∙ clear_uses_in 30 dots (child + 32 + 32) (k - 2) (omega arith))
    where
      at : entry child k + 12 ≡ child + 32 + 32 + 32 * (k - 2) + 12
      at = omega arith

  result_tables : (a : ℕ) → 1024 ≤ a → a < 5120 → folder_result.vd a ≡ synced a
  result_tables a lo hi =
      result_out a (omega (arith, dir.parent_low))
      ∙ (cleared_out a (inl (omega arith))
          ∙ marked_out a (omega (arith, dir.block_low)) (omega (arith, dir.block_low)))

  result_next :
      (j : ℕ)
      → j < 1024
      → next_num folder_result.vd j ≡ (if b == j then end_mark else next_num s.vd j)
  result_next j h =
      next_num_ext synced folder_result.vd j h (λ a lo hi. result_tables a lo (omega arith))
      ∙ (next_num_ext (set_next s.vd b end_mark) synced j h
            (λ a lo hi. sync_fat2_out _ a (omega arith))
          ∙ next_num-set_next s.vd b end_mark j)

  result_elsewhere : (a : ℕ) → Spared s i a → Outside a child 1024 → folder_result.vd a ≡ s.vd a
  result_elsewhere a h o =
      result_out a h.3
      ∙ (cleared_out a o
          ∙ (marked_out a h.1 h.2
              ∙ (sync_fat2_out _ a (ground arith) ∙ set_next_out s.vd b end_mark a (ground arith))))

  result_longer :
      Fcb.len (folder_result.oft_list s.curr_oft_index).fcb 0 ≡ Fcb.len (current s).fcb 0 + 32
  unfolding create_at set_oft Fcb.len set_len
  result_longer =
      rw (eq→== s.curr_oft_index s.curr_oft_index refl)
        (get_u32-set_u32 _ 28 _ (omega (arith, dir.length)))

  result_others : (j : ℕ) → j ≢ s.curr_oft_index → folder_result.oft_list j ≡ s.oft_list j
  unfolding create_at set_oft
  result_others j ne = ground arith

  pub create_at-NewFolder : NewFolder s folder_result fname i b
  create_at-NewFolder = record {
    itself = result-itself;
    dot = result-dot;
    dot_dot = result-dot_dot;
    no_other = result-no_other;
    allocated = ground (arith, result_next b);
    other_blocks = λ j h ne. ground (arith, result_next j);
    mirrored = IsMirrored-ext synced folder_result.vd result_tables (sync_fat2-IsMirrored _);
    elsewhere = result_elsewhere;
    one_more = create_at-OneMore s i b fname dir_exname true;
    longer = result_longer;
    other_files = result_others;
  }
