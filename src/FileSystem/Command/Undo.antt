-- ===== src/FileSystem/Command/Undo.antt =====
-- Two lines of a session of exam5/File_System/main.cpp: `my_mkdir` of a directory and `my_rmdir` of it.
use hdu_os_experiment.Common.{
  ℕ, ◌/◌, ◌<◌, ◌≡◌, ◌≢◌, ◌∙◌, refl, arith, true, some, List, [], ◌∷◌, get_or,
}
use hdu_os_experiment.Memory.Token.{strtok, split_name, name_only}
use hdu_os_experiment.FileSystem.Fcb
use hdu_os_experiment.FileSystem.Fcb.Init.{IsName}
use hdu_os_experiment.FileSystem.Fat.{
  get_block_ptr, get_next_vhd_block, end_mark, next_num, free_mark,
}
use hdu_os_experiment.FileSystem.Dir.{get_next_fcb, not_found, dir_exname}
use hdu_os_experiment.FileSystem.Dir.Lookup.{first_wanted, Cleared, Counts}
use hdu_os_experiment.FileSystem.Oft.{Fs}
use hdu_os_experiment.FileSystem.Create.{rewound, createfile, my_mkdir}
use hdu_os_experiment.FileSystem.Create.File.{current, here, InDirectory}
use hdu_os_experiment.FileSystem.Delete.{delete_file, my_rmdir}
use hdu_os_experiment.FileSystem.Delete.Undo.{Undone}
use hdu_os_experiment.FileSystem.Delete.UndoFolder.{delete_file-createfile_dir}
use hdu_os_experiment.FileSystem.Command.{cmds, World, Host, run_cmd, excute_cmd, run_lines}
use hdu_os_experiment.FileSystem.Command.Dispatch.{get_index_of_cmd-cmds}

-- The line holds the command of index `i` and then the word `arg`.
abbrev pub IsCall : List ℕ → ℕ → List ℕ → Type 0
IsCall line i arg =
    (rest : List ℕ) × (more : List ℕ) × (strtok 32 line ≡ some (get_or cmds i [], rest))
    × (strtok 32 rest ≡ some (arg, more))

excute_cmd-call :
    (h : Host) (w : World) (line arg : List ℕ) (i : ℕ)
    → i < 15
    → IsCall line i arg
    → excute_cmd h w line ≡ run_cmd h w (some i) (some arg)
unfolding excute_cmd
excute_cmd-call h w line arg i known (rest, more, word, next) =
    rw (excute_cmd, word, next, get_index_of_cmd-cmds i known) refl

run_cmd-my_mkdir :
    (h : Host) (w : World) (arg : List ℕ) (s : Fs)
    → createfile w.fs arg true ≡ some (0, s)
    → run_cmd h w (some 1) (some arg) ≡ some (record w { fs = s })
unfolding run_cmd my_mkdir
run_cmd-my_mkdir h w arg s run = rw run refl

run_cmd-my_rmdir :
    (h : Host) (w : World) (arg : List ℕ) (s : Fs)
    → delete_file w.fs arg true ≡ some (0, s)
    → run_cmd h w (some 2) (some arg) ≡ some (record w { fs = s })
unfolding run_cmd my_rmdir
run_cmd-my_rmdir h w arg s run = rw run refl

run_lines-next :
    (h : Host) (w w' : World) (line : List ℕ) (lines : List (List ℕ))
    → w.flag ≡ true
    → excute_cmd h w line ≡ some w'
    → run_lines h w (line ∷ lines) ≡ run_lines h w' lines
unfolding run_lines
run_lines-next h w w' line lines up run = rw (run_lines, up, run) refl

-- In a directory that counts its entries and has the name in no unused one, with a free entry and
-- a free block, and if neither of the two blocks is block 128 and the block of the directory and
-- that of its parent are not free, the lines "my_mkdir" and "my_rmdir" with a new directory name
-- that fits are carried out, and the loop of `main` goes on with the lines behind them. All blocks
-- are then free that were, and no other; the current directory is as long as before, the entry is
-- not in use, and the disk is unchanged but for that entry, the block that it had, the recorded
-- lengths of the current directory and the last two bytes of block 128.
pub my_rmdir-my_mkdir :
    (h : Host) (w : World) (first second filename fname : List ℕ) (lines : List (List ℕ)) (i : ℕ)
    → w.flag ≡ true
    → IsCall first 1 filename
    → IsCall second 2 filename
    → InDirectory w.fs
    → here w.fs ≢ 128
    → get_next_vhd_block w.fs.vd ≢ 128
    → next_num w.fs.vd (here w.fs) ≢ free_mark
    → next_num w.fs.vd (current w.fs).fdt.pdf_block_no ≢ free_mark
    → Counts w.fs.vd (get_block_ptr (here w.fs)) (Fcb.len (current w.fs).fcb 0 / 32)
    → Cleared w.fs.vd (get_block_ptr (here w.fs)) fname dir_exname true 30 2
    → split_name filename ≡ name_only fname
    → IsName fname dir_exname
    → first_wanted w.fs.vd (get_block_ptr (here w.fs)) fname dir_exname true 30 2 ≡ not_found
    → get_next_fcb w.fs.vd (get_block_ptr (here w.fs)) ≡ some i
    → get_next_vhd_block w.fs.vd ≢ end_mark
    → (s : Fs) × (run_lines h w (first ∷ second ∷ lines) ≡ run_lines h (record w { fs = s }) lines)
      × Undone (rewound w.fs) s i (get_next_vhd_block w.fs.vd)
my_rmdir-my_mkdir h w first second filename fname lines i up make remove dir ne ne' taken taken'
      counts cleared parts names fresh slot room =
    let (s1, s2, made, gone, undone) =
      delete_file-createfile_dir w.fs filename fname i dir ne ne' taken taken' counts cleared parts
        names fresh slot room in
    (
      s2,
      run_lines-next h w (record w { fs = s1 }) first (second ∷ lines) up
            (excute_cmd-call h w first filename 1 (omega arith) make
              ∙ run_cmd-my_mkdir h w filename s1 made)
          ∙ run_lines-next h (record w { fs = s1 }) (record w { fs = s2 }) second lines up
              (excute_cmd-call h (record w { fs = s1 }) second filename 2 (omega arith) remove
                ∙ run_cmd-my_rmdir h (record w { fs = s1 }) filename s2 gone),
      undone,
    )
