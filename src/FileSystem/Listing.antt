-- ===== src/FileSystem/Listing.antt =====
-- `my_ls` and `printFile` of exam5/File_System/main.cpp: the entries of the current directory as they
-- are shown.
pub mod Shown
use hdu_os_experiment.Common.{
  ℕ, zero, suc, ◌+◌, ◌-◌, ◌*◌, ◌/◌, ◌%◌, Bool, true, false, not, ◌&&◌, ◌||◌, Option, none, some,
  List, [], ◌∷◌, ◌==◌, ltb, if◌then◌else◌,
}
use hdu_os_experiment.Memory.{Mem, read_str}
use hdu_os_experiment.FileSystem.Fcb
use hdu_os_experiment.FileSystem.Fcb.{fcb_size, judge_dir}
use hdu_os_experiment.FileSystem.Fat.{get_block_ptr}
use hdu_os_experiment.FileSystem.Dir.{entry, fcb_max}
use hdu_os_experiment.FileSystem.Oft.{Fs, Oft}
use hdu_os_experiment.FileSystem.Create.{rewound}

-- The date and the time in a packed word: year, month and day; hour, minute and second.
abbrev pub shown_date : ℕ → ℕ × ℕ × ℕ
shown_date d = (d / 512 + 1900, d / 32 % 16, d % 32)

abbrev pub shown_time : ℕ → ℕ × ℕ × ℕ
shown_time w = (w / 2048, w / 32 % 64, w % 32 * 2)

-- What is printed between the name and the size.
pub data Kind : Type 0 where
  directory : Kind
  data_file : (exname : List ℕ) → (read_only : Bool) → Kind

-- The arguments that `printFile` gives to `printf`.
pub record Line : Type 0 where
  pub filename : List ℕ
  pub kind : Kind
  pub length : ℕ
  pub c_date : ℕ × ℕ × ℕ
  pub weekday : ℕ
  pub c_time : ℕ × ℕ × ℕ
  pub u_date : ℕ × ℕ × ℕ
  pub u_time : ℕ × ℕ × ℕ
  pub l_date : ℕ × ℕ × ℕ

-- `printFile`.
unfoldable pub print_file : Mem → ℕ → Line
print_file m p = record {
  filename = read_str m p 8;
  kind =
      if judge_dir m p then directory else data_file (read_str m (p + 8) 3) (Fcb.attr m p % 2 == 1);
  length = Fcb.len m p;
  c_date = shown_date (Fcb.c_date m p);
  weekday = Fcb.wday m p;
  c_time = shown_time (Fcb.c_time m p);
  u_date = shown_date (Fcb.u_date m p);
  u_time = shown_time (Fcb.u_time m p);
  l_date = shown_date (Fcb.l_date m p);
}

-- The entry is not hidden, or all are asked for.
abbrev pub is_shown : Mem → ℕ → Bool → Bool
is_shown m p isall = not (Fcb.attr m p / 2 % 2 == 1) || isall

-- The loop of `my_ls` at index `i`.
unfoldable pub list_entries : ℕ → Mem → ℕ → Bool → ℕ → ℕ → List Line
list_entries zero m p isall i fcb_num = []
list_entries (suc left) m p isall i fcb_num =
    let e = entry p i in
    let used = Fcb.in_use m e == 1 in
    let rest = list_entries left m p isall (i + 1) (if used then fcb_num else fcb_num + 1) in
    if ltb i (fcb_num + 2)
    then (if used && is_shown m e isall then print_file m e ∷ rest else rest)
    else []

-- `my_ls`: what is printed, and the state; `none` is `EXIT_FAILURE`.
unfoldable pub my_ls : Fs → Bool → Option (List Line × Fs)
my_ls s isall =
    let o = s.oft_list s.curr_oft_index in
    let p = get_block_ptr (Fcb.s_block o.fcb 0) in
    if judge_dir o.fcb 0
    then some (list_entries (fcb_max - 2) s.vd p isall 2 (Fcb.len o.fcb 0 / fcb_size), rewound s)
    else none
