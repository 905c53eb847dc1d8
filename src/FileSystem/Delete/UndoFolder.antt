-- ===== src/FileSystem/Delete/UndoFolder.antt =====
-- `deleteFile` of a directory that `createfile` has just made in exam5/File_System/main.cpp.
use hdu_os_experiment.Common.{
  ℕ, zero, suc, ◌+◌, ◌/◌, ◌≤◌, ◌<◌, ◌≡◌, ◌≢◌, ◌∙◌, sym, subst, ap, refl, arith, true, List, [], ◌∷◌,
  some,
}
use hdu_os_experiment.Memory.{Mem}
use hdu_os_experiment.Memory.Token.{split_name, name_only}
use hdu_os_experiment.FileSystem.Fcb
use hdu_os_experiment.FileSystem.Fcb.{judge_dir}
use hdu_os_experiment.FileSystem.Fcb.Init.{IsName}
use hdu_os_experiment.FileSystem.Fat.{
  get_block_ptr, get_next_vhd_block, end_mark, next_num, free_mark,
}
use hdu_os_experiment.FileSystem.Dir.{entry, get_next_fcb, not_found, dir_exname}
use hdu_os_experiment.FileSystem.Dir.Used.{used}
use hdu_os_experiment.FileSystem.Dir.Lookup.{first_wanted, Cleared, Counts}
use hdu_os_experiment.FileSystem.Oft.{Fs}
use hdu_os_experiment.FileSystem.Create.{rewound, createfile}
use hdu_os_experiment.FileSystem.Create.File.{current, here, InDirectory}
use hdu_os_experiment.FileSystem.Create.Folder.{NewFolder}
use hdu_os_experiment.FileSystem.Create.Outcome.{
  createfile-NewFolder, block-lt, block-ge, block-other,
}
use hdu_os_experiment.FileSystem.Delete.{delete_file}
use hdu_os_experiment.FileSystem.Delete.Tree.{DirTree, tree, Entries-unused}
use hdu_os_experiment.FileSystem.Delete.Outcome.{delete_file-Removed_dir}
use hdu_os_experiment.FileSystem.Create.Ready.{Ready, rewound-Ready, rewound-here}
use hdu_os_experiment.FileSystem.Delete.Again.{
  Holding, OneMore-Holding, Spared-SameHeads, here-OneMore,
}
use hdu_os_experiment.FileSystem.Delete.Undo.{Undone, Undone-of, free-next}

used_none :
    (left : ℕ) (m : Mem) (p i : ℕ)
    → ((k : ℕ) → i ≤ k → k < i + left → Fcb.in_use m (entry p k) ≡ 0)
    → used left m p i ≡ 0
used_none zero m p i h = refl
used_none (suc left) m p i h =
    rw
      (
        h i (omega arith) (omega arith),
        used_none left m p (i + 1) (λ k lo hi. h k (omega arith) (omega arith)),
      )
      refl

is_directory : (m : Mem) (p : ℕ) → Fcb.attr m p ≡ 8 → judge_dir m p ≡ true
unfolding judge_dir
is_directory m p e = rw e refl

-- A new directory is a tree of its own block alone.
NewFolder-DirTree :
    (s s1 : Fs) (fname : List ℕ) (i b : ℕ)
    → NewFolder s s1 fname i b
    → 5 ≤ b
    → b ≢ 128
    → DirTree s1.vd (entry (get_block_ptr (here s)) i) (b ∷ []) 32
NewFolder-DirTree s s1 fname i b new lo ne =
    tree new.itself.block lo ne (none ∙ ap (λ l. l / 32) (sym new.itself.empty))
      (Entries-unused s1.vd b 30 2 none)
  where
    none : used 30 s1.vd (get_block_ptr b) 2 ≡ 0
    none = used_none 30 s1.vd (get_block_ptr b) 2 λ k lo hi. new.no_other k lo (omega (arith, hi))

NewFolder-Holding :
    (s s1 : Fs) (fname : List ℕ) (i b : ℕ)
    → Ready s fname dir_exname true i
    → b ≢ here s
    → NewFolder s s1 fname i b
    → Holding s1 fname dir_exname true i
NewFolder-Holding s s1 fname i b ready apart new =
    OneMore-Holding s s1 new.one_more fname dir_exname true i ready
      (Spared-SameHeads s s1 i ready.dir (λ k a lo hi from to h. new.elsewhere a h (ground arith)))
      new.itself.in_use (is_directory s1.vd _ new.itself.kind)
      ((new.itself.text fname dir_exname).1 (refl, refl))

-- Deleting the directory that is new in `s1`.
NewFolder-Undone :
    (s s1 : Fs) (filename fname : List ℕ) (i b : ℕ)
    → Ready s fname dir_exname true i
    → here s ≢ 128
    → b ≢ 128
    → b ≢ here s
    → split_name filename ≡ name_only fname
    → next_num s.vd b ≡ free_mark
    → 5 ≤ b
    → b < 1024
    → NewFolder s s1 fname i b
    → (s2 : Fs) × (delete_file s1 filename true ≡ some (0, s2)) × Undone s s2 i b
NewFolder-Undone s s1 filename fname i b ready ne ne' apart parts free above below new =
    let has = NewFolder-Holding s s1 fname i b ready apart new in
    let block = sym (here-OneMore s s1 new.one_more) in
    let (s2, run, gone) =
      delete_file-Removed_dir s1 filename fname i 32 (b ∷ []) has.dir
        (subst (λ c. c ≢ 128) block ne) has.counts has.cleared parts has.hit
        (subst (λ c. DirTree s1.vd (entry (get_block_ptr c) i) (b ∷ []) 32) block
          (NewFolder-DirTree s s1 fname i b new above ne'))
        (ground arith) in
    (s2, run, Undone-of s s1 s2 i b ready.dir new.one_more free new.other_blocks new.elsewhere gone)

-- In a directory that counts its entries and has the name in no unused one, with a free entry and
-- a free block, and if neither of the two blocks is block 128 and the block of the directory and
-- that of its parent are not free, a directory of a new name that fits is created and then
-- deleted, both with the result 0. All blocks are then free that were, and no other; the current
-- directory is as long as before, the entry is not in use, and the disk is unchanged but for that
-- entry, the block that it had, the recorded lengths of the current directory and the last two
-- bytes of block 128.
pub delete_file-createfile_dir :
    (s : Fs) (filename fname : List ℕ) (i : ℕ)
    → InDirectory s
    → here s ≢ 128
    → get_next_vhd_block s.vd ≢ 128
    → next_num s.vd (here s) ≢ free_mark
    → next_num s.vd (current s).fdt.pdf_block_no ≢ free_mark
    → Counts s.vd (get_block_ptr (here s)) (Fcb.len (current s).fcb 0 / 32)
    → Cleared s.vd (get_block_ptr (here s)) fname dir_exname true 30 2
    → split_name filename ≡ name_only fname
    → IsName fname dir_exname
    → first_wanted s.vd (get_block_ptr (here s)) fname dir_exname true 30 2 ≡ not_found
    → get_next_fcb s.vd (get_block_ptr (here s)) ≡ some i
    → get_next_vhd_block s.vd ≢ end_mark
    → (s1 s2 : Fs) × (createfile s filename true ≡ some (0, s1))
      × (delete_file s1 filename true ≡ some (0, s2))
      × Undone (rewound s) s2 i (get_next_vhd_block s.vd)
delete_file-createfile_dir s filename fname i dir ne ne' taken taken' counts cleared parts names
      fresh slot room =
    let (s1, made, new) =
      createfile-NewFolder s filename fname i dir taken taken' counts cleared parts names fresh slot
        room in
    let ready = rewound-Ready s fname dir_exname true i dir counts cleared fresh slot in
    let block = sym (rewound-here s) in
    let (s2, run, undone) =
      NewFolder-Undone (rewound s) s1 filename fname i (get_next_vhd_block s.vd) ready
        (subst (λ c. c ≢ 128) block ne) ne'
        (subst (λ c. get_next_vhd_block s.vd ≢ c) block (block-other s.vd (here s) room taken))
        parts (free-next s.vd room) (block-ge s.vd room) (block-lt s.vd room) new in
    (s1, s2, made, run, undone)
