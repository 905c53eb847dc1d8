-- ===== src/FileSystem/Examples.antt =====
-- The theorems about exam5/File_System/main.cpp, applied to a small disk.
use hdu_os_experiment.Common.{
  ◌≡◌, refl, arith, true, false, ◌&&◌, [], ◌∷◌, some, ltb, leb, ◌==◌, if◌then◌else◌,
}
use hdu_os_experiment.Memory.{Mem, get_u16, get_u32, read_str, str_eq}
use hdu_os_experiment.Memory.Token.{strtok, token, after_token, skip_delims, split_name}
use hdu_os_experiment.FileSystem.Fcb
use hdu_os_experiment.FileSystem.Fcb.{Tm, init_fcb, judge_dir, file_name_match}
use hdu_os_experiment.FileSystem.Fcb.Init.{IsName}
use hdu_os_experiment.FileSystem.Fat.{next_num, get_next_vhd_block, scan_free}
use hdu_os_experiment.FileSystem.Dir.{get_next_fcb, scan_fcb}
use hdu_os_experiment.FileSystem.Dir.Lookup.{Cleared, Cleared-of_check}
use hdu_os_experiment.FileSystem.Oft.{Fs}
use hdu_os_experiment.FileSystem.Create.{rewound, createfile}
use hdu_os_experiment.FileSystem.Create.File.{NewFile}
use hdu_os_experiment.FileSystem.Create.Outcome.{createfile-NewFile}
use hdu_os_experiment.FileSystem.Delete.{delete_file}
use hdu_os_experiment.FileSystem.Delete.Outcome.{Removed, delete_file-Removed}
use hdu_os_experiment.FileSystem.Write.{write_pre_process, do_write}
use hdu_os_experiment.FileSystem.Write.Result.{DidWrite, do_write-DidWrite}
use hdu_os_experiment.FileSystem.Read.RoundTrip.{ReadsBack, my_read-do_write}
use hdu_os_experiment.FileSystem.Format.{my_format}
use hdu_os_experiment.FileSystem.Control.{my_ctrl}
use hdu_os_experiment.FileSystem.Control.Bits.{Controlled, my_ctrl-Controlled}
use hdu_os_experiment.FileSystem.Open.{my_close, my_open}
use hdu_os_experiment.FileSystem.Open.Closed.{Closes, my_close-Closes}
use hdu_os_experiment.FileSystem.Open.Opened.{Opens, my_open-Opens}
use hdu_os_experiment.FileSystem.Format.Formatted.{Formats, my_format-Formats}
use hdu_os_experiment.FileSystem.Sample.{
  posix, table, vd, fs, fs-InDirectory, fs-Chain, fs-IsOpen, fs-Counts, fs_root,
}

b_t-Cleared : Cleared vd 5120 (b'b' ∷ []) (b't' ∷ []) false 30 2
unfolding Fcb.in_use file_name_match read_str str_eq
b_t-Cleared = Cleared-of_check vd 5120 (b'b' ∷ []) (b't' ∷ []) false 30 2 refl

names-IsName : IsName (b'b' ∷ []) (b't' ∷ [])
names-IsName = record {
  name_text = omega arith;
  ext_text = omega arith;
  name_fits = omega arith;
  ext_fits = omega arith;
}

createfile-NewFile_example :
    (s' : Fs) × (createfile fs (b'b' ∷ b'.' ∷ b't' ∷ []) false ≡ some (0, s'))
    × NewFile (rewound fs) s' (b'b' ∷ []) (b't' ∷ []) 3 7
unfolding Fcb.in_use Fcb.s_block Fcb.len Fcb.attr judge_dir get_u32 get_u16 file_name_match read_str
    str_eq get_next_fcb scan_fcb split_name strtok skip_delims token after_token get_next_vhd_block
    scan_free next_num
createfile-NewFile_example =
    createfile-NewFile fs (b'b' ∷ b'.' ∷ b't' ∷ []) (b'b' ∷ []) (b't' ∷ []) 3 fs-InDirectory
      fs-Counts b_t-Cleared refl names-IsName refl refl (omega arith)

delete_file-Removed_example :
    (s' : Fs) × (delete_file fs (b'a' ∷ b'.' ∷ b't' ∷ []) false ≡ some (0, s'))
    × Removed (rewound fs) s' 2 (6 ∷ [])
unfolding Fcb.in_use Fcb.s_block Fcb.len Fcb.attr judge_dir get_u32 get_u16 file_name_match read_str
    str_eq split_name strtok skip_delims token after_token next_num
delete_file-Removed_example =
    delete_file-Removed fs (b'a' ∷ b'.' ∷ b't' ∷ []) (b'a' ∷ []) (b't' ∷ []) 2 (6 ∷ [])
      fs-InDirectory fs-Counts (Cleared-of_check vd 5120 (b'a' ∷ []) (b't' ∷ []) false 30 2 refl)
      refl refl fs-Chain

my_read-do_write_example :
    ReadsBack 1 (b'h' ∷ b'i' ∷ []) (do_write (write_pre_process fs 1 false) 1 (b'h' ∷ b'i' ∷ []))
my_read-do_write_example =
    my_read-do_write fs 1 (6 ∷ []) (b'h' ∷ b'i' ∷ []) (omega arith) fs-IsOpen (omega arith)
      (omega arith)

do_write-DidWrite_example :
    DidWrite fs 1 (6 ∷ []) 6 0 (b'h' ∷ b'i' ∷ []) (do_write fs 1 (b'h' ∷ b'i' ∷ []))
unfolding Fcb.len get_u32 get_u16
do_write-DidWrite_example =
    do_write-DidWrite fs 1 (6 ∷ []) (b'h' ∷ b'i' ∷ []) 0 0 fs-IsOpen (omega arith) (omega arith)
      (omega arith) (omega arith) (omega arith)

-- The same disk with a chain of two blocks, 7 and 8.
abbrev chained : Mem
chained a =
    if a == 1038
    then 8
    else if leb 1040 a && ltb a 1042
    then 255
    else if a == 1039
    then 0
    else table a

my_format-Formats_example : Formats true (λ m. m) (my_format 1048576 posix fs)
my_format-Formats_example = my_format-Formats 1048576 posix fs

my_close-Closes_example : Closes fs 1 (my_close fs 1)
my_close-Closes_example = my_close-Closes fs 1 (omega arith)

my_open-Opens_example :
    Opens fs_root 2 (b'a' ∷ b'.' ∷ b't' ∷ []) (my_open fs_root (b'a' ∷ b'.' ∷ b't' ∷ []))
unfolding Fcb.in_use Fcb.s_block Fcb.len Fcb.attr judge_dir get_u32 get_u16 file_name_match read_str
    str_eq split_name strtok skip_delims token after_token
my_open-Opens_example =
    my_open-Opens fs_root (b'a' ∷ b'.' ∷ b't' ∷ []) (b'a' ∷ []) (b't' ∷ []) 2 (omega arith) refl
      fs-Counts refl

my_ctrl-Controlled_example :
    (s' : Fs) × (my_ctrl fs (b'a' ∷ b'.' ∷ b't' ∷ []) 1 ≡ some (true, s')) × Controlled fs s' 5184 1
unfolding Fcb.in_use Fcb.s_block Fcb.len Fcb.attr judge_dir get_u32 get_u16 file_name_match read_str
    str_eq split_name strtok skip_delims token after_token
my_ctrl-Controlled_example =
    my_ctrl-Controlled fs (b'a' ∷ b'.' ∷ b't' ∷ []) (b'a' ∷ []) (b't' ∷ []) 2 1 (omega arith) refl
      fs-Counts refl (omega arith)
