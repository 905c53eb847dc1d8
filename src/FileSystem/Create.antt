-- ===== src/FileSystem/Create.antt =====
-- `initFileFCB` and `createfile` of exam5/File_System/main.cpp: a new entry in the current
-- directory, with a block of its own.
pub mod Entry
pub mod Dot
pub mod File
pub mod Folder
pub mod Outcome
pub mod Ready
use hdu_os_experiment.Common.{
  ℕ, zero, suc, ◌+◌, ◌*◌, ◌/◌, Bool, true, false, Option, none, some, List, [], ◌∷◌, ◌==◌,
  if◌then◌else◌,
}
use hdu_os_experiment.Memory.{Mem, put}
use hdu_os_experiment.Memory.Token.{Parts, no_name, name_only, name_ext, split_name}
use hdu_os_experiment.FileSystem.Fcb
use hdu_os_experiment.FileSystem.Fcb.{
  Tm, fcb_size, rootdir, dir, data_file, judge_dir, set_attr, set_s_block, set_len, init_fcb,
  init_fcb_time,
}
use hdu_os_experiment.FileSystem.Fat.{
  get_block_ptr, get_next_vhd_block, set_next, sync_fat2, end_mark,
}
use hdu_os_experiment.FileSystem.Dir.{entry, dir_exname, get_next_fcb, name_taken}
use hdu_os_experiment.FileSystem.Oft.{Fs, Oft, set_oft, skip}

-- The part of `initFileFCB` that both kinds of file share: the FCB at `p` in the directory whose
-- block begins at `parent`.
unfoldable pub init_entry : Mem → ℕ → ℕ → ℕ → List ℕ → List ℕ → (ℕ → Tm) → Mem
init_entry m parent p block_no fname ename clock =
    let m1 = init_fcb m p fname ename 1 (clock 0) in
    let m2 = set_len m1 parent (Fcb.len m1 parent + fcb_size) in
    let m3 = set_s_block m2 p block_no in let m4 = set_len m3 p 0 in init_fcb_time m4 p (clock 1)

-- One of the entries "." and ".." of a new directory.
unfoldable pub init_dot : Mem → ℕ → List ℕ → ℕ → ℕ → Tm → Tm → Mem
init_dot m p name attr block_no t t' =
    let m1 = init_fcb m p name dir_exname 1 t in
    let m2 = set_attr m1 p attr in
    let m3 = set_s_block m2 p block_no in let m4 = set_len m3 p 0 in init_fcb_time m4 p t'

-- The loop that marks `left` entries from `p` on as not in use.
unfoldable pub clear_uses : ℕ → Mem → ℕ → Mem
clear_uses zero m p = m
clear_uses (suc left) m p = clear_uses left (put m (p + 12) 0) (p + fcb_size)

-- `initFileFCB`.
unfoldable pub init_file_fcb : Mem → ℕ → ℕ → ℕ → List ℕ → List ℕ → Bool → (ℕ → Tm) → Mem
init_file_fcb m parent_block offset block_no fname ename isdir clock =
    let parent = get_block_ptr parent_block in
    let p = entry parent offset in
    let m1 = init_entry m parent p block_no fname ename clock in
    let attr = if block_no == parent_block then rootdir else dir in
    let child = get_block_ptr block_no in
    let m2 = set_attr m1 p (Fcb.attr m1 p + attr) in
    let m3 = init_dot m2 child (b'.' ∷ []) attr block_no (clock 2) (clock 3) in
    let m4 =
      init_dot m3 (child + fcb_size) (b'.' ∷ b'.' ∷ []) attr parent_block (clock 4) (clock 5) in
    if isdir
    then clear_uses 30 m4 (child + fcb_size + fcb_size)
    else set_attr m1 p (Fcb.attr m1 p + data_file)

-- What `createfile` does once it has the entry and the block.
unfoldable pub create_at : Fs → ℕ → ℕ → List ℕ → List ℕ → Bool → Fs
create_at s offset block_no fname ename isdir =
    let o = s.oft_list s.curr_oft_index in
    let here = Fcb.s_block o.fcb 0 in
    let m1 = sync_fat2 (set_next s.vd block_no end_mark) in
    let m2 = init_file_fcb m1 here offset block_no fname ename isdir s.clock in
    let parent = entry (get_block_ptr o.fdt.pdf_block_no) o.fdt.fd_entry_no in
    let m3 =
      if o.fdt.pdf_block_no == here then m2 else set_len m2 parent (Fcb.len m2 parent + fcb_size) in
    let o' = record o { fcb = set_len o.fcb 0 (Fcb.len o.fcb 0 + fcb_size) } in
    record s {
      vd = m3;
      oft_list = set_oft s.oft_list s.curr_oft_index o';
      clock = skip (if isdir then 6 else 2) s.clock;
    }

-- `oftPtr->fdt.filePtr = 0` for the current file.
abbrev pub rewound : Fs → Fs
rewound s =
    let o = s.oft_list s.curr_oft_index in
    let o' = record o { fdt = record (o.fdt) { file_ptr = 0 } } in
    record s { oft_list = set_oft s.oft_list s.curr_oft_index o' }

-- `createfile` after its name has been taken apart and found well formed: 0 for success and 1
-- for a failure, with the state.
unfoldable pub create_named : Fs → List ℕ → List ℕ → Bool → ℕ × Fs
create_named s fname ename isdir =
    let o = s.oft_list s.curr_oft_index in
    let s' = rewound s in
    let here = get_block_ptr (Fcb.s_block o.fcb 0) in
    let block_no = get_next_vhd_block s.vd in
    if name_taken s.vd here fname ename isdir 32 0 (Fcb.len o.fcb 0 / fcb_size)
    then (1, s')
    else elim (get_next_fcb s.vd here) [
      | none ↦ (1, s')
      | some offset ↦
          if block_no == end_mark
          then (1, s')
          else (0, create_at s' offset block_no fname ename isdir)
    ]

-- A run in which only its failure is defined.
unfoldable pub only_failure : ℕ × Fs → Option (ℕ × Fs)
only_failure (code, s) = if code == 1 then some (code, s) else none

-- `createfile` by the parts of the name. `none` is undefined behaviour: a name of dots alone has no
-- first part, and `strcmp` of the first entry, or `strcpy` of the name, is given a null pointer.
unfoldable pub create_parts : Fs → Parts → Bool → Option (ℕ × Fs)
create_parts s no_name true =
    let o = s.oft_list s.curr_oft_index in
    if Fcb.len o.fcb 0 / fcb_size == 0
    then only_failure (create_named s [] dir_exname true)
    else none
create_parts s no_name false = some (1, s)
create_parts s (name_only fname) true = some (create_named s fname dir_exname true)
create_parts s (name_only fname) false = some (1, s)
create_parts s (name_ext fname ename) true = some (1, s)
create_parts s (name_ext fname ename) false = some (create_named s fname ename false)

-- `createfile`: 0 for success, 1 for a failure.
unfoldable pub createfile : Fs → List ℕ → Bool → Option (ℕ × Fs)
createfile s filename isdir =
    let o = s.oft_list s.curr_oft_index in
    if judge_dir o.fcb 0 then create_parts s (split_name filename) isdir else some (1, s)

-- The result 0, whatever the code was.
abbrev pub ignored : Option (ℕ × Fs) → Option (ℕ × Fs)
ignored none = none
ignored (some (code, s)) = some (0, s)

unfoldable pub my_mkdir : Fs → List ℕ → Option (ℕ × Fs)
my_mkdir s dirname = ignored (createfile s dirname true)

unfoldable pub my_create : Fs → List ℕ → Option (ℕ × Fs)
my_create s filename = ignored (createfile s filename false)
