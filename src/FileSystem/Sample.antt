-- ===== src/FileSystem/Sample.antt =====
-- A small disk for the examples about exam5/File_System/main.cpp: the root directory in block 5
-- holds one data file, "a.t", on block 6.
use hdu_os_experiment.Common.{
  ℕ, ◌+◌, ◌%◌, refl, arith, true, false, ◌&&◌, [], ◌∷◌, ltb, leb, ◌==◌, if◌then◌else◌,
}
use hdu_os_experiment.Memory.{Mem, get_u16, get_u32}
use hdu_os_experiment.FileSystem.Fcb
use hdu_os_experiment.FileSystem.Fcb.{Tm, init_fcb, judge_dir, file_name_match}
use hdu_os_experiment.FileSystem.Fat.{next_num}
use hdu_os_experiment.FileSystem.Fat.Chain.{Chain, last}
use hdu_os_experiment.FileSystem.Dir.Lookup.{Counts}
use hdu_os_experiment.FileSystem.Oft.{Fs, Oft, Fdt}
use hdu_os_experiment.FileSystem.Create.File.{InDirectory}
use hdu_os_experiment.FileSystem.Format.{HostFile}
use hdu_os_experiment.FileSystem.Write.Result.{IsOpen}

-- Entries 5 and 6 of the table end their chains, and the others are free.
abbrev pub table : Mem
table a =
    if leb 1024 a && ltb a 3072 then (if leb 1034 a && ltb a 1038 then 255 else 254 + a % 2) else 0

-- Entry 2 of the root directory lies at 5184.
abbrev pub vd : Mem
vd a =
    if a == 5184
    then b'a'
    else if a == 5192
    then b't'
    else if a == 5195
    then 16
    else if a == 5196
    then 1
    else if a == 5204
    then 6
    else table a

abbrev pub noon : ℕ → Tm
noon _ = record { hour = 12; min = 0; sec = 0; year = 117; mon = 5; mday = 20; wday = 2 }

abbrev pub root_fcb : Mem
root_fcb a = if a == 11 then 4 else if a == 20 then 5 else if a == 28 then 32 else 0

abbrev pub file_fcb : Mem
file_fcb a =
    if a == 0
    then b'a'
    else if a == 8
    then b't'
    else if a == 11
    then 16
    else if a == 12
    then 1
    else if a == 20
    then 6
    else 0

abbrev pub descriptor : ℕ → Fdt
descriptor i = record {
  file_ptr = 0;
  is_upate = false;
  pdf_block_no = 5;
  fd_entry_no = i;
  dir_name = record { chars = []; fits = omega arith };
}

abbrev pub root : Oft
root = record { fcb = root_fcb; fdt = descriptor 0; is_use = true }

abbrev pub file : Oft
file = record { fcb = file_fcb; fdt = descriptor 2; is_use = true }

abbrev pub fs : Fs
fs = record {
  vd = vd;
  oft_list = λ i. if i == 0 then root else file;
  curr_oft_index = 0;
  clock = noon;
}

pub fs-InDirectory : InDirectory fs
unfolding judge_dir Fcb.attr Fcb.s_block Fcb.len get_u32 get_u16
fs-InDirectory = record {
  is_dir = refl;
  block_low = omega arith;
  block_high = omega arith;
  length = omega arith;
  parent_low = omega arith;
  parent_entry = omega arith;
}

pub fs-Chain : Chain vd 6 (6 ∷ [])
unfolding next_num get_u16
fs-Chain = last (omega arith) refl

pub fs-IsOpen : IsOpen fs 1 (6 ∷ [])
unfolding next_num Fcb.s_block get_u16
fs-IsOpen = record {
  chain = fs-Chain;
  above = omega arith;
  parent = record { low = omega arith; high = omega arith; out = refl; taken = omega arith };
  entry = omega arith;
}

pub fs-Counts : Counts vd 5120 1
unfolding Fcb.in_use
fs-Counts = refl

-- The same disk with the root directory alone open.
abbrev pub fs_root : Fs
fs_root = record fs { oft_list = λ i. if i == 0 then root else record file { is_use = false } }

-- A host's file on which text mode changes no byte.
abbrev pub posix : HostFile
posix = record {
  opens = true;
  fwrite = λ m. m;
  fread = λ file m a. if ltb a 1048576 then file a else m a;
}
