-- ===== src/FileSystem/Create/File.antt =====
-- `createfile` of a data file.
use hdu_os_experiment.Common.{
  ℕ, ◌+◌, ◌≤◌, ◌<◌, ◌≡◌, ◌≢◌, ◌⊎◌, refl, arith, true, false, Bool, List, ◌∙◌, ◌↔◌, inl, inr,
  Bool-cases, ◌==◌, if◌then◌else◌, eq→==,
}
use hdu_os_experiment.Memory.{Mem, put}
use hdu_os_experiment.Memory.Laws.{Outside, get_u32-set_u32, set_u32_ne}
use hdu_os_experiment.FileSystem.Fcb
use hdu_os_experiment.FileSystem.Fcb.{set_attr, set_len, judge_dir, file_name_match}
use hdu_os_experiment.FileSystem.Fcb.Init.{IsName}
use hdu_os_experiment.FileSystem.Fcb.Fields.{
  SameButAttr, in_use_ext, s_block_ext, len_ext, match_ext,
}
use hdu_os_experiment.FileSystem.Fat.{get_block_ptr, next_num, set_next, sync_fat2, end_mark}
use hdu_os_experiment.FileSystem.Fat.Entry.{next_num-set_next, set_next_out}
use hdu_os_experiment.FileSystem.Fat.Mirror.{
  IsMirrored, next_num_ext, sync_fat2_out, sync_fat2-IsMirrored, IsMirrored-ext,
}
use hdu_os_experiment.FileSystem.Dir.{entry}
use hdu_os_experiment.FileSystem.Oft.{Fs, Oft, set_oft}
use hdu_os_experiment.FileSystem.Create.{init_entry, init_file_fcb, create_at}
use hdu_os_experiment.FileSystem.Create.Entry.{
  init_entry_out, init_entry-in_use, init_entry-attr, init_entry-s_block, init_entry-len,
  init_entry-match,
}

abbrev pub current : Fs → Oft
current s = s.oft_list s.curr_oft_index

-- The block of the current directory, and the address of its FCB in its parent.
abbrev pub here : Fs → ℕ
here s = Fcb.s_block (current s).fcb 0

abbrev pub in_parent : Fs → ℕ
in_parent s = entry (get_block_ptr (current s).fdt.pdf_block_no) (current s).fdt.fd_entry_no

-- The current file is a directory of the data area, and its length is that of one block at most.
pub record InDirectory (s : Fs) : Type 0 where
  pub is_dir : judge_dir (current s).fcb 0 ≡ true
  pub block_low : 5 ≤ here s
  pub block_high : here s < 1024
  pub length : Fcb.len (current s).fcb 0 ≤ 1024
  pub parent_low : 5 ≤ (current s).fdt.pdf_block_no
  pub parent_entry : (current s).fdt.fd_entry_no < 32

-- Addresses that the creation of entry `i` in the current directory leaves alone.
abbrev pub Spared : Fs → ℕ → ℕ → Type 0
Spared s i a =
    ((a < 1024) ⊎ (5120 ≤ a))
    × Outside a (entry (get_block_ptr (here s)) i) 32
    × Outside a (get_block_ptr (here s) + 28) 4
    × Outside a (in_parent s + 28) 4

-- In `s'` the same file is current, and but for 32 more bytes of length it is as in `s`.
pub record OneMore (s s' : Fs) : Type 0 where
  pub same_file : s'.curr_oft_index ≡ s.curr_oft_index
  pub slot :
      s'.oft_list s.curr_oft_index
      ≡ record (current s) { fcb = set_len (current s).fcb 0 (Fcb.len (current s).fcb 0 + 32) }

pub create_at-OneMore :
    (s : Fs) (i b : ℕ) (fname ename : List ℕ) (isdir : Bool)
    → OneMore s (create_at s i b fname ename isdir)
unfolding create_at set_oft
create_at-OneMore s i b fname ename isdir = record {
  same_file = refl;
  slot = rw (eq→== s.curr_oft_index s.curr_oft_index refl) refl;
}

-- In `s'` entry `i` of the directory is a new empty data file on block `b`.
pub record NewFile (s s' : Fs) (fname ename : List ℕ) (i b : ℕ) : Type 0 where
  pub in_use : Fcb.in_use s'.vd (entry (get_block_ptr (here s)) i) ≡ 1
  pub is_file : judge_dir s'.vd (entry (get_block_ptr (here s)) i) ≡ false
  pub block : Fcb.s_block s'.vd (entry (get_block_ptr (here s)) i) ≡ b
  pub empty : Fcb.len s'.vd (entry (get_block_ptr (here s)) i) ≡ 0
  pub name :
      (f e : List ℕ)
      → (file_name_match s'.vd (entry (get_block_ptr (here s)) i) f e ≡ true)
        ↔ ((fname ≡ f) × (ename ≡ e))
  pub allocated : next_num s'.vd b ≡ end_mark
  pub other_blocks : (j : ℕ) → j < 1024 → j ≢ b → next_num s'.vd j ≡ next_num s.vd j
  pub mirrored : IsMirrored s'.vd
  pub elsewhere : (a : ℕ) → Spared s i a → s'.vd a ≡ s.vd a
  pub one_more : OneMore s s'
  pub longer : Fcb.len (s'.oft_list s.curr_oft_index).fcb 0 ≡ Fcb.len (current s).fcb 0 + 32
  pub other_files : (j : ℕ) → j ≢ s.curr_oft_index → s'.oft_list j ≡ s.oft_list j

module _ (s : Fs) (fname ename : List ℕ) (i b : ℕ) (dir : InDirectory s)
    (names : IsName fname ename) (i_low : 2 ≤ i) (i_high : i < 32) (b_high : b < 1024) where
  abbrev pub p : ℕ
  p = entry (get_block_ptr (here s)) i

  abbrev pub synced : Mem
  synced = sync_fat2 (set_next s.vd b end_mark)

  abbrev pub entered : Mem
  entered = init_entry synced (get_block_ptr (here s)) p b fname ename s.clock

  abbrev pub marked : Mem
  marked = set_attr entered p (Fcb.attr entered p + 16)

  abbrev pub result : Fs
  result = create_at s i b fname ename false

  marked_out :
      (a : ℕ) → Outside a p 32 → Outside a (get_block_ptr (here s) + 28) 4 → marked a ≡ synced a
  unfolding set_attr put
  marked_out a h h' =
      let rest =
        init_entry_out synced (get_block_ptr (here s)) p b fname ename s.clock (omega arith)
          names.name_fits names.ext_fits a h h' in
      ground (arith, rest)

  result_out : (a : ℕ) → Outside a (in_parent s + 28) 4 → result.vd a ≡ marked a
  unfolding create_at init_file_fcb set_len
  result_out a h = elim (Bool-cases ((current s).fdt.pdf_block_no == here s)) [
    | inl root ↦ rw root
    | inr sub ↦ rw sub (set_u32_ne marked (in_parent s + 28) _ a h)
  ]

  result_entry : (a : ℕ) → p ≤ a → a < p + 32 → result.vd a ≡ marked a
  unfolding create_at init_file_fcb set_len
  result_entry a lo hi = elim (Bool-cases ((current s).fdt.pdf_block_no == here s)) [
    | inl root ↦ rw root refl
    | inr sub ↦ rw sub (set_u32_ne marked (in_parent s + 28) _ a (ground (arith, dir.parent_entry)))
  ]

  kept : SameButAttr result.vd entered p
  unfolding set_attr put
  kept a lo hi ne = result_entry a lo hi ∙ ground arith

  result_attr : result.vd (p + 11) ≡ 16
  unfolding set_attr put
  result_attr =
      result_entry (p + 11) (omega arith) (omega arith)
      ∙ ground (
        arith,
        init_entry-attr synced (get_block_ptr (here s)) p b fname ename s.clock (omega arith)
            names.name_fits names.ext_fits,
      )

  result_is_file : judge_dir result.vd p ≡ false
  unfolding judge_dir Fcb.attr
  result_is_file = rw result_attr refl

  result_tables : (a : ℕ) → 1024 ≤ a → a < 5120 → result.vd a ≡ synced a
  result_tables a lo hi =
      result_out a (omega (arith, dir.parent_low))
      ∙ marked_out a (omega (arith, dir.block_low)) (omega (arith, dir.block_low))

  result_next :
      (j : ℕ) → j < 1024 → next_num result.vd j ≡ (if b == j then end_mark else next_num s.vd j)
  result_next j h =
      next_num_ext synced result.vd j h (λ a lo hi. result_tables a lo (omega arith))
      ∙ (next_num_ext (set_next s.vd b end_mark) synced j h
            (λ a lo hi. sync_fat2_out _ a (omega arith))
          ∙ next_num-set_next s.vd b end_mark j)

  result_elsewhere : (a : ℕ) → Spared s i a → result.vd a ≡ s.vd a
  result_elsewhere a h =
      result_out a h.3
      ∙ (marked_out a h.1 h.2
          ∙ (sync_fat2_out _ a (ground arith) ∙ set_next_out s.vd b end_mark a (ground arith)))

  result_longer : Fcb.len (result.oft_list s.curr_oft_index).fcb 0 ≡ Fcb.len (current s).fcb 0 + 32
  unfolding create_at set_oft Fcb.len set_len
  result_longer =
      rw (eq→== s.curr_oft_index s.curr_oft_index refl)
        (get_u32-set_u32 _ 28 _ (omega (arith, dir.length)))

  result_others : (j : ℕ) → j ≢ s.curr_oft_index → result.oft_list j ≡ s.oft_list j
  unfolding create_at set_oft
  result_others j ne = ground arith

  -- The parts of the new state, with the directory's own entry in the table.
  pub create_at-NewFile : NewFile s result fname ename i b
  create_at-NewFile = record {
    in_use =
        in_use_ext result.vd entered p kept
        ∙ init_entry-in_use synced (get_block_ptr (here s)) p b fname ename s.clock (omega arith)
            names.name_fits names.ext_fits;
    is_file = result_is_file;
    block =
        s_block_ext result.vd entered p kept
        ∙ init_entry-s_block synced (get_block_ptr (here s)) p b fname ename s.clock (omega arith)
            names.name_fits names.ext_fits (omega arith);
    empty =
        len_ext result.vd entered p kept
        ∙ init_entry-len synced (get_block_ptr (here s)) p b fname ename s.clock (omega arith)
            names.name_fits names.ext_fits;
    name = λ f e. rw (match_ext result.vd entered p kept f e) (
        init_entry-match synced (get_block_ptr (here s)) p b fname ename s.clock (omega arith)
          names.name_fits names.ext_fits names.name_text names.ext_text f e);
    allocated = ground (arith, result_next b);
    other_blocks = λ j h ne. ground (arith, result_next j);
    mirrored = IsMirrored-ext synced result.vd result_tables (sync_fat2-IsMirrored _);
    elsewhere = result_elsewhere;
    one_more = create_at-OneMore s i b fname ename false;
    longer = result_longer;
    other_files = result_others;
  }
