-- ===== src/FileSystem/Cd.antt =====
-- `open_curpath` and `my_cd` of exam5/File_System/main.cpp: the current directory, step by step along
-- a path.
pub mod Stack
pub mod Leave
pub mod Path
pub mod Change
use hdu_os_experiment.Common.{
  ℕ, zero, suc, ◌+◌, ◌/◌, Bool, true, false, ◌&&◌, Option, none, some, List, [], ◌∷◌, ◌++◌, ltb,
  ◌==◌, length, if◌then◌else◌,
}
use hdu_os_experiment.Memory.{Mem, memcpy, read_str, str_eq}
use hdu_os_experiment.Memory.Token.{strtok}
use hdu_os_experiment.FileSystem.Fcb
use hdu_os_experiment.FileSystem.Fcb.{fcb_size, judge_dir, file_name_match, view_fcb_time}
use hdu_os_experiment.FileSystem.Fat.{get_block_ptr}
use hdu_os_experiment.FileSystem.Dir.{entry, fcb_max, dir_exname}
use hdu_os_experiment.FileSystem.Oft.{
  Fs, Oft, Fdt, DirName, in_dir_name, set_oft, get_next_oft, skip,
}
use hdu_os_experiment.FileSystem.Open.{my_close}

-- The values 0, `EXIT_FAILURE` and `NOT_FOUND`.
pub data Flag : Type 0 where
  done : Flag
  failure : Flag
  no_directory : Flag

-- The loop of `open_curpath` at index `i`: the index it ends at, and the count then.
unfoldable pub find_child : ℕ → Mem → ℕ → List ℕ → ℕ → ℕ → ℕ × ℕ
find_child zero m p dirname i fcb_num = (i, fcb_num)
find_child (suc left) m p dirname i fcb_num =
    let unused = Fcb.in_use m (entry p i) == 0 in
    let rest = find_child left m p dirname (i + 1) (if unused then fcb_num + 1 else fcb_num) in
    if ltb i (fcb_num + 2)
    then if unused
      then rest
      else if file_name_match m (entry p i) dirname dir_exname && judge_dir m (entry p i)
      then (i, fcb_num)
      else rest
    else (i, fcb_num)

-- The slot of a directory that is entered, from its entry `k` in the one that `parent` stands for.
unfoldable pub entered : Mem → Oft → Oft → ℕ → DirName → Oft
entered m parent o k path = record o {
  fcb = memcpy o.fcb 0 m (entry (get_block_ptr (Fcb.s_block parent.fcb 0)) k) fcb_size;
  fdt = record (o.fdt) {
    file_ptr = 0;
    is_upate = false;
    dir_name = path;
    pdf_block_no = Fcb.s_block parent.fcb 0;
    fd_entry_no = k;
  };
  is_use = true;
}

-- The path of a directory that is entered.
abbrev pub entered_path : Oft → List ℕ → List ℕ
entered_path parent dirname = parent.fdt.dir_name.chars ++ dirname ++ 92 ∷ []

-- The last branch of `open_curpath` with slot `j` and the path that it builds in `dirName`.
abbrev pub enter_slot : Fs → ℕ → ℕ → (ℕ → Oft) → Option DirName → Option (Flag × Fs)
enter_slot s k j l none = none
enter_slot s k j l (some path) =
    let parent = s.oft_list s.curr_oft_index in
    let p = entry (get_block_ptr (Fcb.s_block parent.fcb 0)) k in
    let m = view_fcb_time s.vd p (s.clock 0) in
    some (
      done,
      record s {
        vd = m;
        oft_list = set_oft l j (entered m parent (l j) k path);
        curr_oft_index = j;
        clock = skip 1 s.clock;
      },
    )

-- The last branch of `open_curpath`: an ordinary directory, in entry `k`. `none` means that its path
-- runs over the end of `dirName`.
unfoldable pub enter_child : Fs → ℕ → List ℕ → Option (Flag × Fs)
enter_child s k dirname = elim (get_next_oft s.oft_list) [
  | none ↦ some (failure, s)
  | some (j, l) ↦
      enter_slot s k j l (in_dir_name (entered_path (s.oft_list s.curr_oft_index) dirname))
]

-- `currOftIndex = my_close (currOftIndex)`; -1 is no index, and what follows it is undefined.
unfoldable pub leave : Fs → Option (Flag × Fs)
leave s =
    let (closed, s') = my_close s s.curr_oft_index in
    elim closed [ none ↦ none | some pi ↦ some (done, record s' { curr_oft_index = pi }) ]

-- `open_curpath` at the entry that its loop ended at.
unfoldable pub open_entry : Fs → ℕ → List ℕ → Option (Flag × Fs)
open_entry s k dirname =
    let p = entry (get_block_ptr (Fcb.s_block (s.oft_list s.curr_oft_index).fcb 0)) k in
    let name = read_str s.vd p 8 in
    if str_eq name (b'.' ∷ [])
    then some (done, s)
    else if str_eq name (b'.' ∷ b'.' ∷ [])
    then (if s.curr_oft_index == 0 then some (done, s) else leave s)
    else enter_child s k dirname

-- `open_curpath`.
unfoldable pub open_curpath : Fs → List ℕ → Option (Flag × Fs)
open_curpath s dirname =
    let o = s.oft_list s.curr_oft_index in
    let p = get_block_ptr (Fcb.s_block o.fcb 0) in
    let (i, fcb_num) = find_child fcb_max s.vd p dirname 0 (Fcb.len o.fcb 0 / fcb_size) in
    if judge_dir o.fcb 0
    then (if i == fcb_num + 2 then some (failure, s) else open_entry s i dirname)
    else some (no_directory, s)

-- `while (currOftIndex) my_close (currOftIndex);`, where `none` means that it does not end in so
-- many rounds.
unfoldable pub close_all : ℕ → Fs → Option Fs
close_all zero s = none
close_all (suc fuel) s =
    let rest = close_all fuel (my_close s s.curr_oft_index).1 in
    if s.curr_oft_index == 0 then some s else rest

-- The rounds given to it: there are ten slots.
abbrev pub close_rounds : ℕ
close_rounds = 10

-- The body of the loop of `my_cd` for one part of the path.
unfoldable pub cd_part : Fs → List ℕ → Option (Flag × Fs)
cd_part s path =
    if str_eq path (b'r' ∷ b'o' ∷ b'o' ∷ b't' ∷ [])
    then elim (close_all close_rounds s) [ none ↦ none | some s' ↦ open_curpath s' (b'.' ∷ []) ]
    else open_curpath s path

-- The loop of `my_cd` over the parts of the path that are left.
unfoldable pub cd_loop : ℕ → Fs → List ℕ → Flag → Option (Flag × Fs)
cd_loop zero s rest flag = none
cd_loop (suc fuel) s rest flag = elim (strtok 92 rest) [
  | none ↦ some (flag, s)
  | some (path, rest') ↦ elim (cd_part s path) [
    | none ↦ none
    | some (done, s') ↦ cd_loop fuel s' rest' done
    | some (failure, s') ↦ some (failure, s')
    | some (no_directory, s') ↦ some (no_directory, s')
  ]
]

-- `my_cd`, whose local copy of the path has as many bytes as `dirName` and so holds it. After a
-- failure it goes back to the path of the directory it began in. `none` means
-- undefined behaviour, or that it does not end in so many rounds.
unfoldable pub my_cd : ℕ → Fs → List ℕ → Option Fs
my_cd zero s pathname = none
my_cd (suc fuel) s pathname =
    let dirname = (s.oft_list s.curr_oft_index).fdt.dir_name.chars in
    elim (cd_loop (length pathname + 1) s pathname done) [
      | none ↦ none
      | some (done, s') ↦ some s'
      | some (failure, s') ↦ my_cd fuel s' dirname
      | some (no_directory, s') ↦ some s'
    ]
