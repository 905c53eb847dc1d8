-- ===== src/FileSystem/Oft.antt =====
-- The open file table of exam5/File_System/main.cpp, and the state of the program: the virtual
-- disk, the table and the index of the current file.
pub mod Slots
pub mod Names
use hdu_os_experiment.Common.{
  ℕ, zero, suc, ◌+◌, Bool, true, false, Option, none, some, List, [], ◌==◌, if◌then◌else◌, ltb,
  length, ◌<◌, ◌≡◌, ◌⊎◌, inl, inr, Bool-cases, ltb→lt,
}
use hdu_os_experiment.Memory.{Mem}
use hdu_os_experiment.FileSystem.Fcb
use hdu_os_experiment.FileSystem.Fcb.{Tm, init_fcb}

-- A text in an array of 80 bytes, its NUL included.
pub record DirName : Type 0 where
  pub chars : List ℕ
  pub fits : length chars < 80

unfoldable pub name_by_test :
    (cs : List ℕ) → (ltb (length cs) 80 ≡ true) ⊎ (ltb (length cs) 80 ≡ false) → Option DirName
name_by_test cs (inl h) = some (record { chars = cs; fits = ltb→lt (length cs) 80 h })
name_by_test cs (inr h) = none

-- What `strcpy` and `strcat` build in `dirName`. `none` means that they write past its end, into
-- `isUse` and what follows it, which is undefined behaviour.
unfoldable pub in_dir_name : List ℕ → Option DirName
in_dir_name cs = name_by_test cs (Bool-cases (ltb (length cs) 80))

-- The file descriptor.
pub record Fdt : Type 0 where
  pub file_ptr : ℕ
  pub is_upate : Bool
  pub pdf_block_no : ℕ
  pub fd_entry_no : ℕ
  pub dir_name : DirName

-- An entry of the open file table; its FCB lies at address 0 of `fcb`.
pub record Oft : Type 0 where
  pub fcb : Mem
  pub fdt : Fdt
  pub is_use : Bool

abbrev pub oft_max_len : ℕ
oft_max_len = 10

-- The global variables. `clock` is what the calls of `time` and `localtime` will read, in order.
pub record Fs : Type 0 where
  pub vd : Mem
  pub oft_list : ℕ → Oft
  pub curr_oft_index : ℕ
  pub clock : ℕ → Tm

abbrev pub skip : ℕ → (ℕ → Tm) → ℕ → Tm
skip n clock k = clock (k + n)

-- `OftList[i] = o`.
unfoldable pub set_oft : (ℕ → Oft) → ℕ → Oft → ℕ → Oft
set_oft l i o j = if i == j then o else l j

-- `initFdt`.
unfoldable pub init_fdt : Fdt → Fdt
init_fdt d = record d { file_ptr = 0; is_upate = false }

-- `initOft`.
unfoldable pub init_oft : Oft → Tm → Oft
init_oft o t = record o { fcb = init_fcb o.fcb 0 [] [] 0 t; fdt = init_fdt o.fdt; is_use = false }

-- The loop of `getNextOft` at index `i`.
unfoldable pub scan_oft : ℕ → (ℕ → Oft) → ℕ → Option ℕ
scan_oft zero l i = none
scan_oft (suc left) l i =
    let rest = scan_oft left l (i + 1) in if (l i).is_use then rest else some i

-- `getNextOft`: the entry is marked as in use.
unfoldable pub get_next_oft : (ℕ → Oft) → Option (ℕ × (ℕ → Oft))
get_next_oft l = elim (scan_oft oft_max_len l 0) [
  | none ↦ none
  | some i ↦ some (i, set_oft l i (record (l i) { is_use = true }))
]

-- The loop of `findParentOft` at index `i`, for the parent's block number.
unfoldable pub scan_parent : ℕ → (ℕ → Oft) → ℕ → ℕ → Option ℕ
scan_parent zero l pdf i = none
scan_parent (suc left) l pdf i =
    let rest = scan_parent left l pdf (i + 1) in
    if Fcb.s_block (l i).fcb 0 == pdf then some i else rest

-- `findParentOft`.
unfoldable pub find_parent_oft : (ℕ → Oft) → ℕ → Option ℕ
find_parent_oft l i_oft = scan_parent oft_max_len l (l i_oft).fdt.pdf_block_no 0
