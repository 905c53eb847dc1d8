-- ===== src/FileSystem/Open.antt =====
-- `my_close`, `initOftByFileName` and `my_open` of exam5/File_System/main.cpp: slots of the open file
-- table are given back and taken.
pub mod Closed
pub mod Opened
pub mod Stack
use hdu_os_experiment.Common.{
  ℕ, zero, suc, ◌+◌, ◌*◌, Bool, true, false, Option, none, some, List, [], ◌∷◌, ◌++◌, ltb, ◌==◌,
  length, if◌then◌else◌,
}
use hdu_os_experiment.Memory.{Mem, memcpy}
use hdu_os_experiment.Memory.Token.{Parts, no_name, name_only, name_ext, split_name}
use hdu_os_experiment.FileSystem.Fcb
use hdu_os_experiment.FileSystem.Fcb.{fcb_size, judge_dir}
use hdu_os_experiment.FileSystem.Fat.{get_block_ptr}
use hdu_os_experiment.FileSystem.Dir.{Search, found, not_found, entry, get_index_of_fcb}
use hdu_os_experiment.FileSystem.Oft.{
  Fs, Oft, Fdt, DirName, in_dir_name, oft_max_len, set_oft, init_oft, get_next_oft, find_parent_oft,
  skip,
}

-- The disk after the FCB of slot `i` is written back to the directory in slot `pi`, if it has
-- changed.
unfoldable pub write_back : Fs → ℕ → ℕ → Mem
write_back s i pi =
    let o = s.oft_list i in
    let p = entry (get_block_ptr (Fcb.s_block (s.oft_list pi).fcb 0)) o.fdt.fd_entry_no in
    if o.fdt.is_upate then memcpy s.vd p o.fcb 0 fcb_size else s.vd

-- `my_close`: its value, where `none` is `NOT_FOUND`, and the state.
unfoldable pub my_close : Fs → ℕ → Option ℕ × Fs
my_close s i = if ltb oft_max_len i then (some 1, s) else elim (find_parent_oft s.oft_list i) [
  | none ↦ (none, s)
  | some pi ↦ (
    some pi,
    record s {
      vd = write_back s i pi;
      oft_list = set_oft s.oft_list i (init_oft (s.oft_list i) (s.clock 0));
      curr_oft_index = pi;
      clock = skip 1 s.clock;
    },
  )
]

-- The path of entry `k` of the directory that `parent` stands for.
abbrev pub opened_path : Mem → Oft → ℕ → List ℕ → List ℕ
opened_path m parent k filename =
    let path = parent.fdt.dir_name.chars ++ filename in
    if judge_dir m (entry (get_block_ptr (Fcb.s_block parent.fcb 0)) k)
    then path ++ 92 ∷ []
    else path

-- The slot that `initOftByFileName` fills: entry `k` of the directory that `parent` stands for.
unfoldable pub opened : Mem → Oft → Oft → ℕ → DirName → Oft
opened m parent o k path =
    let p = entry (get_block_ptr (Fcb.s_block parent.fcb 0)) k in
    record o {
      fcb = memcpy o.fcb 0 m p fcb_size;
      fdt = record (o.fdt) {
        fd_entry_no = k;
        pdf_block_no = Fcb.s_block parent.fcb 0;
        is_upate = false;
        dir_name = path;
      };
      is_use = true;
    }

-- `initOftByFileName` with slot `j` and the path that it builds in `dirName`, after `isUse` is set.
abbrev pub fill_slot : Fs → Oft → ℕ → ℕ → (ℕ → Oft) → Option DirName → Option (Option ℕ × Fs)
fill_slot s parent k j l none = none
fill_slot s parent k j l (some path) = some (
  some j,
  record s {
    oft_list = set_oft l j (opened s.vd parent (init_oft (l j) (s.clock 0)) k path);
    clock = skip 1 s.clock;
  },
)

-- `initOftByFileName` after the name has been taken apart: the slot, where `none` is -1, and the
-- state. `none` outside means that a loop does not end, or that the path is too long.
unfoldable pub open_named : Fs → ℕ → List ℕ → List ℕ → List ℕ → Bool → Option (Option ℕ × Fs)
open_named s pi filename fname ename isdir =
    let parent = s.oft_list pi in
    elim (get_index_of_fcb s.vd parent.fcb 0 fname ename isdir) [
      | Search.no_end ↦ none
      | not_found ↦ some (none, s)
      | found k ↦ elim (get_next_oft s.oft_list) [
        | none ↦ some (none, s)
        | some (j, l) ↦ fill_slot s parent k j l (in_dir_name (opened_path s.vd parent k filename))
      ]
    ]

-- The end of `my_open`: the slot becomes the current one.
abbrev pub finish_open : Option (Option ℕ × Fs) → Option (ℕ × Fs)
finish_open none = none
finish_open (some (none, s)) = some (1, s)
finish_open (some (some i, s)) = some (0, record s { curr_oft_index = i })

-- `my_open`: 0 for success, 1 for a failure. `none` is undefined behaviour, or a loop that does not
-- end: `strncpy` leaves the copy of a name of 12 bytes or more without its NUL, and a path of 80
-- bytes or more runs over the end of `dirName`.
unfoldable pub my_open : Fs → List ℕ → Option (ℕ × Fs)
my_open s filename = if ltb 11 (length filename) then none else elim (split_name filename) [
  | no_name ↦ some (1, s)
  | name_only fname ↦ some (1, s)
  | name_ext fname ename ↦ finish_open (open_named s s.curr_oft_index filename fname ename false)
]
