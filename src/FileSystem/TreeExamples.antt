-- ===== src/FileSystem/TreeExamples.antt =====
-- The theorems about directories and failures in exam5/File_System/main.cpp, applied to small disks.
use hdu_os_experiment.Common.{
  get_or, ◌++◌, none, ℕ, ◌≡◌, ◌⊎◌, refl, arith, true, false, ◌&&◌, List, [], ◌∷◌, some, ltb, leb,
  ◌==◌, if◌then◌else◌,
}
use hdu_os_experiment.Memory.{Mem, get_u16, get_u32, read_str, str_eq}
use hdu_os_experiment.Memory.Token.{strtok, token, after_token, skip_delims, split_name}
use hdu_os_experiment.FileSystem.Fcb
use hdu_os_experiment.FileSystem.Fcb.{judge_dir, file_name_match}
use hdu_os_experiment.FileSystem.Fcb.Init.{IsName}
use hdu_os_experiment.FileSystem.Fat.{next_num, get_next_vhd_block, scan_free}
use hdu_os_experiment.FileSystem.Fat.Chain.{Chain, last}
use hdu_os_experiment.FileSystem.Dir.{get_next_fcb, scan_fcb, dir_exname}
use hdu_os_experiment.FileSystem.Dir.Lookup.{Cleared-of_check, Cleared}
use hdu_os_experiment.FileSystem.Oft.{Fs}
use hdu_os_experiment.FileSystem.Create.{rewound, createfile, create_parts}
use hdu_os_experiment.FileSystem.Create.File.{InDirectory}
use hdu_os_experiment.FileSystem.Create.Folder.{NewFolder}
use hdu_os_experiment.FileSystem.Create.Outcome.{createfile-NewFolder}
use hdu_os_experiment.FileSystem.Delete.{delete_file, delete_parts}
use hdu_os_experiment.FileSystem.Delete.Tree.{DirTree, tree, file, Entries-unused}
use hdu_os_experiment.FileSystem.Delete.Outcome.{Removed, delete_file-Removed_dir}
use hdu_os_experiment.FileSystem.Delete.Undo.{Undone, delete_file-createfile}
use hdu_os_experiment.FileSystem.Open.{my_open}
use hdu_os_experiment.FileSystem.Usable.{Usable, my_read-createfile}
use hdu_os_experiment.FileSystem.Command.{cmds, World, Host, run_lines}
use hdu_os_experiment.FileSystem.Command.Undo.{my_rmdir-my_mkdir}
use hdu_os_experiment.FileSystem.Failure.{createfile-Unharmed, delete_file-Unharmed}
use hdu_os_experiment.FileSystem.Sample.{posix, table, vd, fs, fs-InDirectory, fs-Counts, fs_root}

abbrev d_name : List ℕ
d_name = b'd' ∷ []

d_name-IsName : IsName d_name dir_exname
d_name-IsName = record {
  name_text = omega arith;
  ext_text = omega arith;
  name_fits = omega arith;
  ext_fits = omega arith;
}

b_t-IsName : IsName (b'b' ∷ []) (b't' ∷ [])
b_t-IsName = record {
  name_text = omega arith;
  ext_text = omega arith;
  name_fits = omega arith;
  ext_fits = omega arith;
}

fs_root-InDirectory : InDirectory fs_root
fs_root-InDirectory = record {
  is_dir = fs-InDirectory.is_dir;
  block_low = fs-InDirectory.block_low;
  block_high = fs-InDirectory.block_high;
  length = fs-InDirectory.length;
  parent_low = fs-InDirectory.parent_low;
  parent_entry = fs-InDirectory.parent_entry;
}

createfile-NewFolder_example :
    (s' : Fs) × (createfile fs d_name true ≡ some (0, s')) × NewFolder (rewound fs) s' d_name 3 7
unfolding Fcb.in_use Fcb.s_block Fcb.len Fcb.attr judge_dir get_u32 get_u16 file_name_match read_str
    str_eq get_next_fcb scan_fcb split_name strtok skip_delims token after_token get_next_vhd_block
    scan_free next_num
createfile-NewFolder_example =
    createfile-NewFolder fs d_name d_name 3 fs-InDirectory (omega arith) (omega arith) fs-Counts
      (Cleared-of_check vd 5120 d_name dir_exname true 30 2 refl) refl d_name-IsName refl refl
      (omega arith)

delete_file-createfile_example :
    (s1 s2 : Fs) × (createfile fs (b'b' ∷ b'.' ∷ b't' ∷ []) false ≡ some (0, s1))
    × (delete_file s1 (b'b' ∷ b'.' ∷ b't' ∷ []) false ≡ some (0, s2))
    × Undone (rewound fs) s2 3 7
unfolding Fcb.in_use Fcb.s_block Fcb.len Fcb.attr judge_dir get_u32 get_u16 file_name_match read_str
    str_eq get_next_fcb scan_fcb split_name strtok skip_delims token after_token get_next_vhd_block
    scan_free next_num
delete_file-createfile_example =
    delete_file-createfile fs (b'b' ∷ b'.' ∷ b't' ∷ []) (b'b' ∷ []) (b't' ∷ []) 3 fs-InDirectory
      fs-Counts (Cleared-of_check vd 5120 (b'b' ∷ []) (b't' ∷ []) false 30 2 refl) refl b_t-IsName
      refl refl (omega arith)

b_t-Cleared : Cleared vd 5120 (b'b' ∷ []) (b't' ∷ []) false 30 2
unfolding Fcb.in_use file_name_match read_str str_eq
b_t-Cleared = Cleared-of_check vd 5120 (b'b' ∷ []) (b't' ∷ []) false 30 2 refl

my_read-createfile_example :
    (s1 : Fs) × (createfile fs_root (b'b' ∷ b'.' ∷ b't' ∷ []) false ≡ some (0, s1))
    × Usable s1 (b'b' ∷ b'.' ∷ b't' ∷ []) (b'h' ∷ b'i' ∷ []) (my_open s1 (b'b' ∷ b'.' ∷ b't' ∷ []))
unfolding Fcb.in_use Fcb.s_block Fcb.len Fcb.attr judge_dir get_u32 get_u16 file_name_match read_str
    str_eq get_next_fcb scan_fcb split_name strtok skip_delims token after_token get_next_vhd_block
    scan_free next_num
my_read-createfile_example =
    my_read-createfile fs_root (b'b' ∷ b'.' ∷ b't' ∷ []) (b'b' ∷ []) (b't' ∷ []) 3
      (b'h' ∷ b'i' ∷ []) fs_root-InDirectory (omega arith) fs-Counts b_t-Cleared (omega arith) refl
      b_t-IsName refl refl (omega arith) (omega arith) (omega arith)

abbrev host : Host
host = record { address = 1048576; disk = posix; scan = λ input. (0, input); cd_rounds = 4 }

abbrev world : World
world = record { fs = fs; flag = true; file = none; input = []; output = [] }

abbrev make_d : List ℕ
make_d = get_or cmds 1 [] ++ b' ' ∷ d_name

abbrev remove_d : List ℕ
remove_d = get_or cmds 2 [] ++ b' ' ∷ d_name

my_rmdir-my_mkdir_example :
    (s : Fs) × (run_lines host world (make_d ∷ remove_d ∷ [])
      ≡ run_lines host (record world { fs = s }) [])
    × Undone (rewound fs) s 3 7
unfolding Fcb.in_use Fcb.s_block Fcb.len Fcb.attr judge_dir get_u32 get_u16 file_name_match read_str
    str_eq get_next_fcb scan_fcb split_name strtok skip_delims token after_token get_next_vhd_block
    scan_free next_num
my_rmdir-my_mkdir_example =
    my_rmdir-my_mkdir host world make_d remove_d d_name d_name [] 3 refl (d_name, [], refl, refl)
      (d_name, [], refl, refl) fs-InDirectory (omega arith) (omega arith) (omega arith)
      (omega arith) fs-Counts (Cleared-of_check vd 5120 d_name dir_exname true 30 2 refl) refl
      d_name-IsName refl refl (omega arith)

-- The root directory holds the directory "d" on block 6, and this the file "a.t" on block 7.
abbrev nested : Mem
nested a =
    if a == 5184
    then b'd'
    else if a == 5192
    then b'd'
    else if a == 5193
    then b'i'
    else if a == 5195
    then 8
    else if a == 5196
    then 1
    else if a == 5204
    then 6
    else if a == 5212
    then 32
    else if a == 6208
    then b'a'
    else if a == 6216
    then b't'
    else if a == 6219
    then 16
    else if a == 6220
    then 1
    else if a == 6228
    then 7
    else if leb 1038 a && ltb a 1040
    then 255
    else table a

abbrev fs_nested : Fs
fs_nested = record fs { vd = nested }

fs_nested-InDirectory : InDirectory fs_nested
fs_nested-InDirectory = record {
  is_dir = fs-InDirectory.is_dir;
  block_low = fs-InDirectory.block_low;
  block_high = fs-InDirectory.block_high;
  length = fs-InDirectory.length;
  parent_low = fs-InDirectory.parent_low;
  parent_entry = fs-InDirectory.parent_entry;
}

nested-Chain : Chain nested 7 (7 ∷ [])
unfolding next_num get_u16
nested-Chain = last (omega arith) refl

nested-DirTree : DirTree nested 5184 (6 ∷ 7 ∷ []) 33
unfolding Fcb.in_use Fcb.s_block Fcb.len Fcb.attr judge_dir get_u32 get_u16
nested-DirTree =
    tree refl (omega arith) (omega arith) refl
      (file (omega arith) refl nested-Chain (Entries-unused nested 6 29 3 refl))

delete_file-Removed_dir_example :
    (s' : Fs) × (delete_file fs_nested d_name true ≡ some (0, s'))
    × Removed (rewound fs_nested) s' 2 (6 ∷ 7 ∷ [])
unfolding Fcb.in_use Fcb.s_block Fcb.len Fcb.attr judge_dir get_u32 get_u16 file_name_match read_str
    str_eq split_name strtok skip_delims token after_token
delete_file-Removed_dir_example =
    delete_file-Removed_dir fs_nested d_name d_name 2 33 (6 ∷ 7 ∷ []) fs_nested-InDirectory
      (omega arith) refl (Cleared-of_check nested 5120 d_name dir_exname true 30 2 refl) refl refl
      nested-DirTree (ground arith)

-- A data file needs a name with an extension.
createfile-Unharmed_example : (fs ≡ fs) ⊎ (fs ≡ rewound fs)
unfolding createfile create_parts judge_dir Fcb.attr get_u32 get_u16 split_name strtok skip_delims
    token after_token str_eq
createfile-Unharmed_example = createfile-Unharmed fs fs d_name false refl

-- So does the data file to be deleted.
delete_file-Unharmed_example : (fs ≡ fs) ⊎ (fs ≡ rewound fs)
unfolding delete_file delete_parts split_name strtok skip_delims token after_token str_eq
delete_file-Unharmed_example = delete_file-Unharmed fs fs d_name false refl
