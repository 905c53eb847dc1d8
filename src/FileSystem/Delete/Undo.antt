-- ===== src/FileSystem/Delete/Undo.antt =====
-- `deleteFile` of what `createfile` has just made in exam5/File_System/main.cpp.
use hdu_os_experiment.Common.{
  ℕ, ◌/◌, ◌<◌, ◌≡◌, ◌≢◌, ◌∙◌, sym, ap, refl, arith, false, List, [], ◌∷◌, some,
}
use hdu_os_experiment.Memory.{Mem}
use hdu_os_experiment.Memory.Laws.{Outside}
use hdu_os_experiment.Memory.Token.{split_name, name_ext}
use hdu_os_experiment.FileSystem.Fcb
use hdu_os_experiment.FileSystem.Fcb.Init.{IsName}
use hdu_os_experiment.FileSystem.Fat.{
  get_block_ptr, get_next_vhd_block, end_mark, next_num, free_mark,
}
use hdu_os_experiment.FileSystem.Fat.Chain.{Chain, last}
use hdu_os_experiment.FileSystem.Fat.Next.{get_next_vhd_block_lem}
use hdu_os_experiment.FileSystem.Fat.Mirror.{IsMirrored}
use hdu_os_experiment.FileSystem.Dir.{entry, get_next_fcb, not_found}
use hdu_os_experiment.FileSystem.Dir.Lookup.{first_wanted, Cleared, Counts}
use hdu_os_experiment.FileSystem.Oft.{Fs}
use hdu_os_experiment.FileSystem.Create.{rewound, createfile}
use hdu_os_experiment.FileSystem.Create.File.{
  current, here, in_parent, InDirectory, NewFile, OneMore, Spared,
}
use hdu_os_experiment.FileSystem.Create.Outcome.{createfile-NewFile, block-lt}
use hdu_os_experiment.FileSystem.Delete.{delete_file}
use hdu_os_experiment.FileSystem.Delete.Outcome.{Removed, delete_file-Removed}
use hdu_os_experiment.FileSystem.Create.Ready.{
  Ready, rewound-Ready, rewound-here, rewound-in_parent, rewound-len,
}
use hdu_os_experiment.FileSystem.Delete.Again.{
  Holding, OneMore-Holding, Spared-SameHeads, here-OneMore, in_parent-OneMore, len-OneMore,
}

-- In `s'` all blocks are as in `s`, the directory is as long, its entry `i` is not in use, and the disk
-- is unchanged but for that entry, block `b`, the recorded lengths of the directory and the last two
-- bytes of block 128.
pub record Undone (s s' : Fs) (i b : ℕ) : Type 0 where
  pub unused : Fcb.in_use s'.vd (entry (get_block_ptr (here s)) i) ≡ 0
  pub blocks : (j : ℕ) → j < 1024 → next_num s'.vd j ≡ next_num s.vd j
  pub mirrored : IsMirrored s'.vd
  pub elsewhere :
      (a : ℕ)
      → Spared s i a
      → Outside a (get_block_ptr b) 1024
      → Outside a 132094 2
      → s'.vd a ≡ s.vd a
  pub same_length : Fcb.len (s'.oft_list s.curr_oft_index).fcb 0 ≡ Fcb.len (current s).fcb 0

pub free-next :
    (m : Mem) → get_next_vhd_block m ≢ end_mark → next_num m (get_next_vhd_block m) ≡ free_mark
free-next m h = ground (arith, (get_next_vhd_block_lem m).free_or_end)

module _ (s s1 s2 : Fs) (i b : ℕ) (dir : InDirectory s) (grown : OneMore s s1)
    (free : next_num s.vd b ≡ free_mark)
    (others : (j : ℕ) → j < 1024 → j ≢ b → next_num s1.vd j ≡ next_num s.vd j)
    (same : (a : ℕ) → Spared s i a → Outside a (get_block_ptr b) 1024 → s1.vd a ≡ s.vd a)
    (gone : Removed (rewound s1) s2 i (b ∷ [])) where
  block : here (rewound s1) ≡ here s
  block = rewound-here s1 ∙ here-OneMore s s1 grown

  at_parent : in_parent (rewound s1) ≡ in_parent s
  at_parent = rewound-in_parent s1 ∙ in_parent-OneMore s s1 grown

  blocks_again : (j : ℕ) → j < 1024 → next_num s2.vd j ≡ next_num s.vd j
  blocks_again j h = ground (arith, gone.blocks j, others j, free)

  pub Undone-of : Undone s s2 i b
  Undone-of = record {
    unused = ap (λ c. Fcb.in_use s2.vd (entry (get_block_ptr c) i)) (sym block) ∙ gone.unused;
    blocks = blocks_again;
    mirrored = gone.mirrored;
    elsewhere = λ a h o l. gone.elsewhere a h.0 (rw block h.1) (rw at_parent h.3) l ∙ same a h o;
    same_length = omega (
      arith,
      ap (λ c. Fcb.len (s2.oft_list c).fcb 0) grown.same_file,
      gone.shorter,
      rewound-len s1,
      len-OneMore s s1 grown dir.length,
    );
  }

pub new-Chain :
    (m : Mem) (c c' i b : ℕ)
    → c' ≡ c
    → b < 1024
    → next_num m b ≡ end_mark
    → Fcb.s_block m (entry (get_block_ptr c) i) ≡ b
    → Chain m (Fcb.s_block m (entry (get_block_ptr c') i)) (b ∷ [])
new-Chain m c c' i b e below ends e' = rw (e, e') (last below ends)

pub NewFile-Holding :
    (s s1 : Fs) (fname ename : List ℕ) (i b : ℕ)
    → Ready s fname ename false i
    → NewFile s s1 fname ename i b
    → Holding s1 fname ename false i
NewFile-Holding s s1 fname ename i b ready new =
    OneMore-Holding s s1 new.one_more fname ename false i ready
      (Spared-SameHeads s s1 i ready.dir (λ k a lo hi from to h. new.elsewhere a h)) new.in_use
      new.is_file ((new.name fname ename).1 (refl, refl))

-- Deleting the file that is new in `s1`.
NewFile-Undone :
    (s s1 : Fs) (filename fname ename : List ℕ) (i b : ℕ)
    → Ready s fname ename false i
    → split_name filename ≡ name_ext fname ename
    → next_num s.vd b ≡ free_mark
    → b < 1024
    → NewFile s s1 fname ename i b
    → (s2 : Fs) × (delete_file s1 filename false ≡ some (0, s2)) × Undone s s2 i b
NewFile-Undone s s1 filename fname ename i b ready parts free below new =
    let has = NewFile-Holding s s1 fname ename i b ready new in
    let (s2, run, gone) =
      delete_file-Removed s1 filename fname ename i (b ∷ []) has.dir has.counts has.cleared parts
        has.hit
        (new-Chain s1.vd (here s) (here s1) i b (here-OneMore s s1 new.one_more) below new.allocated
          new.block) in
    (
      s2,
      run,
      Undone-of s s1 s2 i b ready.dir new.one_more free new.other_blocks
          (λ a h o. new.elsewhere a h) gone,
    )

-- In a directory that counts its entries and has the name in no unused one, with a free entry and
-- a free block, a data file of a new name that fits is created and then deleted, both with the
-- result 0. All blocks are then free that were, and no other; the directory is as long as before,
-- the entry is not in use, and the disk is unchanged but for that entry, the block that it had,
-- the recorded lengths of the directory and the last two bytes of block 128.
pub delete_file-createfile :
    (s : Fs) (filename fname ename : List ℕ) (i : ℕ)
    → InDirectory s
    → Counts s.vd (get_block_ptr (here s)) (Fcb.len (current s).fcb 0 / 32)
    → Cleared s.vd (get_block_ptr (here s)) fname ename false 30 2
    → split_name filename ≡ name_ext fname ename
    → IsName fname ename
    → first_wanted s.vd (get_block_ptr (here s)) fname ename false 30 2 ≡ not_found
    → get_next_fcb s.vd (get_block_ptr (here s)) ≡ some i
    → get_next_vhd_block s.vd ≢ end_mark
    → (s1 s2 : Fs) × (createfile s filename false ≡ some (0, s1))
      × (delete_file s1 filename false ≡ some (0, s2))
      × Undone (rewound s) s2 i (get_next_vhd_block s.vd)
delete_file-createfile s filename fname ename i dir counts cleared parts names fresh slot room =
    let (s1, made, new) =
      createfile-NewFile s filename fname ename i dir counts cleared parts names fresh slot room in
    let ready = rewound-Ready s fname ename false i dir counts cleared fresh slot in
    let (s2, run, undone) =
      NewFile-Undone (rewound s) s1 filename fname ename i (get_next_vhd_block s.vd) ready parts
        (free-next s.vd room) (block-lt s.vd room) new in
    (s1, s2, made, run, undone)
