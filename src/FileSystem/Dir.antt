-- ===== src/FileSystem/Dir.antt =====
-- The entries of a directory's block in exam5/File_System/main.cpp: 32 FCBs, of which the first
-- two are "." and "..", and the loops that look one up.
pub mod Used
pub mod Lookup
pub mod Entered
use hdu_os_experiment.Common.{
  ℕ, zero, suc, ◌+◌, ◌-◌, ◌*◌, ◌/◌, Bool, true, false, not, ◌&&◌, ◌||◌, Option, none, some, List,
  [], ◌∷◌, ◌==◌, ltb, if◌then◌else◌,
}
use hdu_os_experiment.Memory.{Mem}
use hdu_os_experiment.FileSystem.Fcb
use hdu_os_experiment.FileSystem.Fcb.{fcb_size, judge_dir, file_name_match}
use hdu_os_experiment.FileSystem.Fat.{get_block_ptr}

-- `VD_BLOCK_SIZE / sizeof (fcb)`.
abbrev pub fcb_max : ℕ
fcb_max = 32

-- `&fcbPtr[i]`.
abbrev pub entry : ℕ → ℕ → ℕ
entry p i = p + fcb_size * i

-- `judgeDir (…) == isdir`, both 0 or 1.
abbrev pub same : Bool → Bool → Bool
same true b = b
same false b = not b

-- The extension of a directory, "di".
abbrev pub dir_exname : List ℕ
dir_exname = b'd' ∷ b'i' ∷ []

pub data Search : Type 0 where
  found : ℕ → Search
  not_found : Search
  no_end : Search

-- The loop of `getNextFcb` at index `i`.
unfoldable pub scan_fcb : ℕ → Mem → ℕ → ℕ → Option ℕ
scan_fcb zero m p i = none
scan_fcb (suc left) m p i =
    let rest = scan_fcb left m p (i + 1) in if Fcb.in_use m (entry p i) == 0 then some i else rest

-- `getNextFcb`.
unfoldable pub get_next_fcb : Mem → ℕ → Option ℕ
get_next_fcb m p = scan_fcb (fcb_max - 2) m p 2

module _ (m : Mem) (p : ℕ) (fname ename : List ℕ) (isdir : Bool) where
  -- The loop of `getIndexOfFcb`, which counts one entry more for each that is not in use.
  unfoldable pub find_fcb : ℕ → ℕ → ℕ → Search
  find_fcb zero i fcb_num = no_end
  find_fcb (suc fuel) i fcb_num =
      let unused = Fcb.in_use m (entry p i) == 0 in
      let rest = find_fcb fuel (i + 1) (if unused then fcb_num + 1 else fcb_num) in
      if ltb i (fcb_num + 2)
      then if not unused
          && (same (judge_dir m (entry p i)) isdir && file_name_match m (entry p i) fname ename)
        then found i
        else rest
      else not_found

  -- The loop of `findFileAtDir`, which asks for the name before it asks whether the entry is used.
  unfoldable pub find_file : ℕ → ℕ → ℕ → Search
  find_file zero i fcb_num = no_end
  find_file (suc fuel) i fcb_num =
      let unused = Fcb.in_use m (entry p i) == 0 in
      let rest = find_file fuel (i + 1) (if unused then fcb_num + 1 else fcb_num) in
      if ltb i (fcb_num + 2)
      then if file_name_match m (entry p i) fname ename && same (judge_dir m (entry p i)) isdir
        then found i
        else rest
      else not_found

  -- The loop of `createfile` that looks for the same name: at most `left` rounds, on the entries
  -- from `i + 2` on, used or not.
  unfoldable pub name_taken : ℕ → ℕ → ℕ → Bool
  name_taken zero i fcb_num = false
  name_taken (suc left) i fcb_num =
      let unused = Fcb.in_use m (entry p (i + 2)) == 0 in
      let rest = name_taken left (i + 1) (if unused then fcb_num + 1 else fcb_num) in
      if ltb i fcb_num
      then (file_name_match m (entry p (i + 2)) fname ename
          && same (judge_dir m (entry p (i + 2))) isdir)
        || rest
      else false

-- The rounds that the unbounded loops are given: no index past the disk is of use.
abbrev pub fcb_rounds : ℕ
fcb_rounds = 32768

-- `getIndexOfFcb` in the directory whose FCB is at `q` in `o`.
unfoldable pub get_index_of_fcb : Mem → Mem → ℕ → List ℕ → List ℕ → Bool → Search
get_index_of_fcb m o q fname ename isdir =
    find_fcb m (get_block_ptr (Fcb.s_block o q)) fname ename isdir fcb_rounds 2
      (Fcb.len o q / fcb_size)

-- `findFileAtDir`. Its `len` is an `int`: from 2 ^ 31 on it is negative, so is the number of entries, and
-- the loop ends at once with the index 2, which is not that number and 2 more.
unfoldable pub find_file_at_dir : Mem → ℕ → ℕ → List ℕ → List ℕ → Bool → Search
find_file_at_dir m p len fname ename isdir =
    let i = find_file m p fname ename isdir fcb_rounds 2 (len / fcb_size) in
    if ltb len 2147483648 then i else found 2
