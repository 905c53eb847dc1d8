-- ===== src/FileSystem/Delete.antt =====
-- `deleteFile` of exam5/File_System/main.cpp: an entry of the current directory is cleared, and
-- the blocks of its file are given back.
pub mod Tree
pub mod Walk
pub mod Outcome
pub mod Again
pub mod Undo
pub mod UndoFolder
use hdu_os_experiment.Common.{
  ℕ, ◌+◌, ◌-◌, ◌*◌, ◌/◌, Bool, true, false, ◌||◌, Option, none, some, List, [], ◌∷◌, ◌==◌,
  if◌then◌else◌,
}
use hdu_os_experiment.Memory.{Mem, str_eq}
use hdu_os_experiment.Memory.Token.{Parts, no_name, name_only, name_ext, split_name}
use hdu_os_experiment.FileSystem.Fcb
use hdu_os_experiment.FileSystem.Fcb.{fcb_size, judge_dir, set_len, init_fcb}
use hdu_os_experiment.FileSystem.Fat.{
  get_block_ptr, delete_file_at_fat, delete_dir_at_fat, sync_fat2,
}
use hdu_os_experiment.FileSystem.Dir.{Search, found, not_found, entry, dir_exname, find_file_at_dir}
use hdu_os_experiment.FileSystem.Oft.{Fs, Oft, set_oft, skip}
use hdu_os_experiment.FileSystem.Create.{rewound, ignored}

-- `len -= sizeof (fcb)` of an `unsigned int`.
abbrev pub less_entry : ℕ → ℕ
less_entry len = len + 4294967296 - fcb_size

-- The rounds given to the walks: there are no more blocks, and a tree of directories has no more
-- entries, than this.
abbrev pub delete_rounds : ℕ
delete_rounds = 65536

-- The blocks of the file of the entry at `p` are given back.
unfoldable pub free_blocks : Mem → ℕ → Bool → Option Mem
free_blocks m p true = delete_dir_at_fat delete_rounds m p
free_blocks m p false = delete_file_at_fat delete_rounds m (Fcb.s_block m p)

-- The end of `deleteFile`, with the blocks given back in `m`: the second table, the entry at `p`,
-- and the lengths of the directory.
unfoldable pub clear_entry : Fs → Mem → ℕ → Fs
clear_entry s m p =
    let o = s.oft_list s.curr_oft_index in
    let m1 = init_fcb (sync_fat2 m) p [] [] 0 (s.clock 0) in
    let o' = record o { fcb = set_len o.fcb 0 (less_entry (Fcb.len o.fcb 0)) } in
    let q = entry (get_block_ptr o.fdt.pdf_block_no) o.fdt.fd_entry_no in
    record s {
      vd = set_len m1 q (less_entry (Fcb.len m1 q));
      oft_list = set_oft s.oft_list s.curr_oft_index o';
      clock = skip 1 s.clock;
    }

-- `deleteFile` after the search. `none` means that a walk does not end.
unfoldable pub delete_found : Fs → Search → Bool → Option (ℕ × Fs)
delete_found s not_found isdir = some (1, s)
delete_found s Search.no_end isdir = none
delete_found s (found i) isdir =
    let o = s.oft_list s.curr_oft_index in
    let p = entry (get_block_ptr (Fcb.s_block o.fcb 0)) i in
    elim (free_blocks s.vd p isdir) [ none ↦ none | some m ↦ some (0, clear_entry s m p) ]

-- `deleteFile` by name, from the reading of the current directory on.
unfoldable pub delete_named : Fs → List ℕ → List ℕ → Bool → Option (ℕ × Fs)
delete_named s fname ename isdir =
    let o = s.oft_list s.curr_oft_index in
    let p = get_block_ptr (Fcb.s_block o.fcb 0) in
    if judge_dir o.fcb 0
    then delete_found (rewound s) (find_file_at_dir s.vd p (Fcb.len o.fcb 0) fname ename isdir)
        isdir
    else some (1, rewound s)

-- A name of dots alone, other than "." and "..": `strcmp` would be given a null pointer, unless
-- there is nothing to compare.
unfoldable pub delete_nameless : Fs → Option (ℕ × Fs)
delete_nameless s =
    let o = s.oft_list s.curr_oft_index in
    if judge_dir o.fcb 0
    then (if Fcb.len o.fcb 0 / fcb_size == 0 then some (1, rewound s) else none)
    else some (1, rewound s)

-- `deleteFile` by the parts of the name.
unfoldable pub delete_parts : Fs → List ℕ → Parts → Bool → Option (ℕ × Fs)
delete_parts s filename no_name true =
    if str_eq filename (b'.' ∷ []) || str_eq filename (b'.' ∷ b'.' ∷ [])
    then some (1, s)
    else delete_nameless s
delete_parts s filename no_name false = some (1, s)
delete_parts s filename (name_only fname) true = delete_named s fname dir_exname true
delete_parts s filename (name_only fname) false = some (1, s)
delete_parts s filename (name_ext fname ename) true = some (1, s)
delete_parts s filename (name_ext fname ename) false = delete_named s fname ename false

-- `deleteFile`: 0 for success, 1 for a failure.
unfoldable pub delete_file : Fs → List ℕ → Bool → Option (ℕ × Fs)
delete_file s filename isdir = delete_parts s filename (split_name filename) isdir

unfoldable pub my_rmdir : Fs → List ℕ → Option (ℕ × Fs)
my_rmdir s dirname = ignored (delete_file s dirname true)

unfoldable pub my_rm : Fs → List ℕ → Option (ℕ × Fs)
my_rm s filename = ignored (delete_file s filename false)
