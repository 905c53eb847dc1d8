-- ===== src/FileSystem/Control.antt =====
-- `my_ctrl` of exam5/File_System/main.cpp: the bits of an entry's attribute that make a file
-- read-only or hidden.
pub mod Bits
use hdu_os_experiment.Common.{
  ℕ, ◌+◌, ◌-◌, ◌/◌, ◌%◌, Bool, true, false, Option, none, some, List, ltb, ◌==◌, if◌then◌else◌,
}
use hdu_os_experiment.Memory.Token.{Parts, no_name, name_only, name_ext, split_name}
use hdu_os_experiment.FileSystem.Fcb
use hdu_os_experiment.FileSystem.Fcb.{set_attr}
use hdu_os_experiment.FileSystem.Fat.{get_block_ptr}
use hdu_os_experiment.FileSystem.Dir.{Search, found, not_found, entry, dir_exname, get_index_of_fcb}
use hdu_os_experiment.FileSystem.Oft.{Fs, Oft}

-- The attribute after control `i`: 0 and 1 clear and set the bit R, 2 and 3 set and clear HIDE.
unfoldable pub control : ℕ → ℕ → ℕ
control attr i =
    if i == 0
    then (if attr % 2 == 1 then attr - 1 else attr)
    else if i == 1
    then (if attr % 2 == 0 then attr + 1 else attr)
    else if i == 2
    then (if attr / 2 % 2 == 0 then attr + 2 else attr)
    else if i == 3
    then (if attr / 2 % 2 == 1 then attr - 2 else attr)
    else attr

-- `my_ctrl` after the search: `true` for 0 and `false` for -1, with the state. `none` means that
-- the search does not end.
unfoldable pub control_found : Fs → Search → ℕ → Option (Bool × Fs)
control_found s not_found i = some (false, s)
control_found s Search.no_end i = none
control_found s (found k) i =
    let p = entry (get_block_ptr (Fcb.s_block (s.oft_list s.curr_oft_index).fcb 0)) k in
    some (true, record s { vd = set_attr s.vd p (control (Fcb.attr s.vd p) i) })

-- `my_ctrl` by the parts of the name.
unfoldable pub control_named : Fs → List ℕ → List ℕ → Bool → ℕ → Option (Bool × Fs)
control_named s fname ename isdir i =
    let o = s.oft_list s.curr_oft_index in
    control_found s (get_index_of_fcb s.vd o.fcb 0 fname ename isdir) i

-- `my_ctrl` for an `i` that is not negative; a negative one gives -1 like one above 3. `none` is
-- also the result for a name of dots alone and the control 2, where `strcmp` would be given a
-- null pointer.
unfoldable pub my_ctrl : Fs → List ℕ → ℕ → Option (Bool × Fs)
my_ctrl s filename i = if ltb 3 i then some (false, s) else elim (split_name filename) [
  | no_name ↦ if i == 2 then none else some (false, s)
  | name_only fname ↦ if i == 2 then control_named s fname dir_exname true i else some (false, s)
  | name_ext fname ename ↦ control_named s fname ename false i
]
