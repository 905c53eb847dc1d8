-- ===== src/FileSystem/Delete/Outcome.antt =====
-- `deleteFile` of a data file, and of a directory with all that is below it.
use hdu_os_experiment.Common.{
  ℕ, ◌+◌, ◌/◌, ◌≤◌, ◌<◌, ◌≡◌, ◌⊎◌, refl, arith, false, List, [], has, ◌∙◌, some, if◌then◌else◌,
  eq→==, inl, Bool, true, ◌≢◌, Distinct, length-Distinct,
}
use hdu_os_experiment.Memory.{Mem}
use hdu_os_experiment.Memory.Laws.{Outside, set_u32_ne, get_u32-set_u32_wrap}
use hdu_os_experiment.Memory.Token.{split_name, name_ext, name_only}
use hdu_os_experiment.FileSystem.Fcb
use hdu_os_experiment.FileSystem.Fcb.{judge_dir, init_fcb, set_len}
use hdu_os_experiment.FileSystem.Fcb.Init.{init_fcb_out, init_fcb-in_use}
use hdu_os_experiment.FileSystem.Fat.{get_block_ptr, next_num, free_mark, sync_fat2}
use hdu_os_experiment.FileSystem.Fat.Chain.{Chain, Chain-length}
use hdu_os_experiment.FileSystem.Fat.Delete.{delete_file_at_fat-Freed}
use hdu_os_experiment.FileSystem.Fat.Mirror.{
  IsMirrored, next_num_ext, sync_fat2_out, sync_fat2-IsMirrored, IsMirrored-ext,
}
use hdu_os_experiment.FileSystem.Dir.{entry, found, dir_exname}
use hdu_os_experiment.FileSystem.Dir.Lookup.{
  first_wanted, Cleared, Counts, find_file_at_dir-first_wanted, first_wanted-bounds,
}
use hdu_os_experiment.FileSystem.Oft.{Fs, set_oft}
use hdu_os_experiment.FileSystem.Create.{rewound}
use hdu_os_experiment.FileSystem.Create.File.{current, here, in_parent, InDirectory}
use hdu_os_experiment.FileSystem.Create.Outcome.{rewound-InDirectory, current-rewound}
use hdu_os_experiment.FileSystem.Delete.Tree.{DirTree, Apart-entry, DirTree-rounds}
use hdu_os_experiment.FileSystem.Delete.Walk.{
  Released, Released-Freed, Walks-some, delete_dir_at_fat-Walks,
}
use hdu_os_experiment.FileSystem.Delete.{
  free_blocks, clear_entry, delete_found, delete_named, delete_parts, delete_file, less_entry,
}

-- In `s'` entry `i` of the directory is no longer in use, and the blocks `bs` are free.
pub record Removed (s s' : Fs) (i : ℕ) (bs : List ℕ) : Type 0 where
  pub unused : Fcb.in_use s'.vd (entry (get_block_ptr (here s)) i) ≡ 0
  pub blocks :
      (j : ℕ) → j < 1024 → next_num s'.vd j ≡ (if has j bs then free_mark else next_num s.vd j)
  pub mirrored : IsMirrored s'.vd
  -- The last two bytes of block 128 are lost to the entry of index 65535.
  pub elsewhere :
      (a : ℕ)
      → (a < 1024) ⊎ (5120 ≤ a)
      → Outside a (entry (get_block_ptr (here s)) i) 32
      → Outside a (in_parent s + 28) 4
      → Outside a 132094 2
      → s'.vd a ≡ s.vd a
  pub shorter : Fcb.len (s'.oft_list s.curr_oft_index).fcb 0 + 32 ≡ Fcb.len (current s).fcb 0

module _ (s : Fs) (i : ℕ) (bs : List ℕ) (m : Mem) (dir : InDirectory s) (freed : Released s.vd m bs)
    (i_low : 2 ≤ i) (i_high : i < 32) (full : 32 ≤ Fcb.len (current s).fcb 0) where
  abbrev p : ℕ
  p = entry (get_block_ptr (here s)) i

  abbrev cleared : Fs
  cleared = clear_entry s m p

  cleared_out :
      (a : ℕ)
      → Outside a 3072 2048
      → Outside a p 32
      → Outside a (in_parent s + 28) 4
      → cleared.vd a ≡ m a
  unfolding clear_entry set_len
  cleared_out a h1 h2 h3 =
      set_u32_ne _ (in_parent s + 28) _ a h3
      ∙ (init_fcb_out (sync_fat2 m) p [] [] 0 (s.clock 0) (omega arith) (omega arith) a h2
          ∙ sync_fat2_out m a h1)

  cleared_tables : (a : ℕ) → 1024 ≤ a → a < 5120 → cleared.vd a ≡ sync_fat2 m a
  unfolding clear_entry set_len
  cleared_tables a lo hi =
      set_u32_ne _ (in_parent s + 28) _ a (inl (omega (arith, dir.parent_low)))
      ∙ init_fcb_out (sync_fat2 m) p [] [] 0 (s.clock 0) (omega arith) (omega arith) a
          (inl (omega (arith, dir.block_low)))

  cleared-in_use : Fcb.in_use cleared.vd p ≡ 0
  unfolding clear_entry set_len Fcb.in_use
  cleared-in_use =
      set_u32_ne _ (in_parent s + 28) _ (p + 12) (ground arith)
      ∙ (init_fcb-in_use (sync_fat2 m) p [] [] 0 (s.clock 0) (omega arith) (omega arith) ∙ refl)

  cleared-blocks :
      (j : ℕ) → j < 1024 → next_num cleared.vd j ≡ (if has j bs then free_mark else next_num s.vd j)
  cleared-blocks j h =
      next_num_ext (sync_fat2 m) cleared.vd j h (λ a lo hi. cleared_tables a lo (omega arith))
      ∙ (next_num_ext m (sync_fat2 m) j h (λ a lo hi. sync_fat2_out m a (omega arith))
          ∙ freed.blocks j h)

  cleared-shorter :
      Fcb.len (cleared.oft_list s.curr_oft_index).fcb 0 + 32 ≡ Fcb.len (current s).fcb 0
  unfolding clear_entry set_oft Fcb.len set_len
  cleared-shorter = rw (eq→== s.curr_oft_index s.curr_oft_index refl) (
      omega (
        arith,
        get_u32-set_u32_wrap (current s).fcb 28 (less_entry (Fcb.len (current s).fcb 0)),
        dir.length,
      ))

  pub clear_entry-Removed : Removed s cleared i bs
  clear_entry-Removed = record {
    unused = cleared-in_use;
    blocks = cleared-blocks;
    mirrored = IsMirrored-ext (sync_fat2 m) cleared.vd cleared_tables (sync_fat2-IsMirrored m);
    elsewhere =
        λ a h h2 h3 h4. cleared_out a (ground arith) h2 h3 ∙ freed.others a (ground arith) h4;
    shorter = cleared-shorter;
  }

found-run :
    (s : Fs) (i : ℕ) (m : Mem) (isdir : Bool)
    → free_blocks s.vd (entry (get_block_ptr (here s)) i) isdir ≡ some m
    → delete_found s (found i) isdir ≡ some (0, clear_entry s m (entry (get_block_ptr (here s)) i))
unfolding delete_found
found-run s i m isdir run = rw (delete_found, run) refl

-- `deleteFile` by name, when the search has found entry `i` and its blocks have been given back.
named-Removed :
    (s : Fs) (fname ename : List ℕ) (isdir : Bool) (i : ℕ) (bs : List ℕ) (m : Mem)
    → InDirectory s
    → Counts s.vd (get_block_ptr (here s)) (Fcb.len (current s).fcb 0 / 32)
    → Cleared s.vd (get_block_ptr (here s)) fname ename isdir 30 2
    → first_wanted s.vd (get_block_ptr (here s)) fname ename isdir 30 2 ≡ found i
    → free_blocks s.vd (entry (get_block_ptr (here s)) i) isdir ≡ some m
    → Released s.vd m bs
    → (s' : Fs) × (delete_named s fname ename isdir ≡ some (0, s')) × Removed (rewound s) s' i bs
unfolding delete_named
named-Removed s fname ename isdir i bs m dir counts blank hit run gone =
    let block : here (rewound s) ≡ here s = rw (current-rewound s) refl in
    let bounds = first_wanted-bounds s.vd (get_block_ptr (here s)) fname ename isdir 30 2 i hit in
    (
      clear_entry (rewound s) m (entry (get_block_ptr (here (rewound s))) i),
      rw
          (
            dir.is_dir,
            find_file_at_dir-first_wanted s.vd (get_block_ptr (here s)) (Fcb.len (current s).fcb 0)
                fname ename isdir counts blank,
            hit,
          )
          (found-run (rewound s) i m isdir (rw block run)),
      clear_entry-Removed (rewound s) i bs m (rewound-InDirectory s dir) gone bounds.0 bounds.1
          (rw (current-rewound s) (omega (arith, bounds.2, counts))),
    )

-- In a directory that counts its entries and has the name in no unused one, `deleteFile` of a data
-- file on the chain `bs`, the first entry in use with that name, returns 0. The entry is then out
-- of use, exactly the blocks of the chain have become free in both tables, the directory is one
-- entry shorter, and the rest of the disk is unchanged but for the recorded length of the
-- directory and the last two bytes of block 128.
pub delete_file-Removed :
    (s : Fs) (filename fname ename : List ℕ) (i : ℕ) (bs : List ℕ)
    → InDirectory s
    → Counts s.vd (get_block_ptr (here s)) (Fcb.len (current s).fcb 0 / 32)
    → Cleared s.vd (get_block_ptr (here s)) fname ename false 30 2
    → split_name filename ≡ name_ext fname ename
    → first_wanted s.vd (get_block_ptr (here s)) fname ename false 30 2 ≡ found i
    → Chain s.vd (Fcb.s_block s.vd (entry (get_block_ptr (here s)) i)) bs
    → (s' : Fs) × (delete_file s filename false ≡ some (0, s')) × Removed (rewound s) s' i bs
unfolding delete_file delete_parts free_blocks
delete_file-Removed s filename fname ename i bs dir counts blank parts hit chain =
    let (m, run, freed) =
      delete_file_at_fat-Freed 65536 s.vd chain (omega (arith, Chain-length chain)) in
    rw parts (
      named-Removed s fname ename false i bs m dir counts blank hit run
        (Released-Freed s.vd m bs freed))

-- In a directory that counts its entries, has the name in no unused one and is not on block
-- 128, `deleteFile` of the directory in entry `i`, the first in use with that name, returns 0. The
-- entry is then out of use, and exactly the blocks `bs` of the whole tree below it have become
-- free in both tables, if each directory in it counts its entries, no two files share a block and
-- no directory is on block 128. The current directory is one entry shorter, and the rest of the
-- disk is unchanged but for its recorded length and the last two bytes of block 128.
pub delete_file-Removed_dir :
    (s : Fs) (filename fname : List ℕ) (i n : ℕ) (bs : List ℕ)
    → InDirectory s
    → here s ≢ 128
    → Counts s.vd (get_block_ptr (here s)) (Fcb.len (current s).fcb 0 / 32)
    → Cleared s.vd (get_block_ptr (here s)) fname dir_exname true 30 2
    → split_name filename ≡ name_only fname
    → first_wanted s.vd (get_block_ptr (here s)) fname dir_exname true 30 2 ≡ found i
    → DirTree s.vd (entry (get_block_ptr (here s)) i) bs n
    → Distinct 1024 bs
    → (s' : Fs) × (delete_file s filename true ≡ some (0, s')) × Removed (rewound s) s' i bs
unfolding delete_file delete_parts free_blocks
delete_file-Removed_dir s filename fname i n bs dir ne counts blank parts hit t apart =
    let bounds =
      first_wanted-bounds s.vd (get_block_ptr (here s)) fname dir_exname true 30 2 i hit in
    let (m, run, gone) = Walks-some _ s.vd bs (
      delete_dir_at_fat-Walks 65536 s.vd
        (Apart-entry (here s) i dir.block_low ne (omega (arith, bounds.1))) t apart
        (omega (arith, DirTree-rounds t, length-Distinct 1024 bs apart))) in
    rw parts (named-Removed s fname dir_exname true i bs m dir counts blank hit run gone)
