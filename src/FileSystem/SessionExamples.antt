-- ===== src/FileSystem/SessionExamples.antt =====
-- The theorems about sessions and the command loop of exam5/File_System/main.cpp, applied to a small
-- disk.
use hdu_os_experiment.Common.{
  ◌≡◌, refl, arith, true, false, [], ◌∷◌, some, none, ◌==◌, if◌then◌else◌, get_or, Option, subst,
  ap,
}
use hdu_os_experiment.Memory.{Mem, get_u16, get_u32, read_str, str_eq}
use hdu_os_experiment.Memory.Token.{strtok, token, after_token, skip_delims, split_name}
use hdu_os_experiment.FileSystem.Fcb
use hdu_os_experiment.FileSystem.Fcb.{Tm, init_fcb, judge_dir, file_name_match}
use hdu_os_experiment.FileSystem.Oft.{Fs}
use hdu_os_experiment.FileSystem.Create.{rewound}
use hdu_os_experiment.FileSystem.Open.{my_close, my_open}
use hdu_os_experiment.FileSystem.Open.Stack.{IsStack, Popped, my_close-Popped}
use hdu_os_experiment.FileSystem.Cd.{close_all, enter_child}
use hdu_os_experiment.FileSystem.Cd.Stack.{
  Fresh, Pushed, my_open-Pushed, Enters, enter_child-Enters,
}
use hdu_os_experiment.FileSystem.Cd.Leave.{close_all-root}
use hdu_os_experiment.FileSystem.Listing.{my_ls, print_file}
use hdu_os_experiment.FileSystem.Listing.Shown.{
  lines_from, my_ls-lines_from, ShowsDates, print_file-init_fcb,
}
use hdu_os_experiment.FileSystem.Input.{my_write, skip_line}
use hdu_os_experiment.FileSystem.Input.Chunks.{Typed, my_write-Typed}
use hdu_os_experiment.FileSystem.Command.{cmds, World, Host, run_lines}
use hdu_os_experiment.FileSystem.Command.Dispatch.{run_lines-exit}
use hdu_os_experiment.FileSystem.Cd.{my_cd}
use hdu_os_experiment.FileSystem.Cd.Change.{
  dot, dot_dot, root_text, HasEntry, my_cd-dot_dot, my_cd-root,
}
use hdu_os_experiment.FileSystem.Sample.{
  posix, vd, noon, root, file, fs, fs_root, fs-Counts, fs-IsOpen,
}

fs_root-IsStack : IsStack fs_root.oft_list 0
fs_root-IsStack = record {
  depth = omega arith;
  used = λ j h. ground arith;
  free = λ j h h'. ground arith;
  link = λ j h. absurd (omega arith);
  apart = λ j k h h'. absurd (omega arith);
}

-- The disk with the root directory and the file open.
abbrev fs_two : Fs
fs_two = record fs {
  oft_list = λ i. if i == 0 then root else record file { is_use = i == 1 };
  curr_oft_index = 1;
}

fs_two-IsStack : IsStack fs_two.oft_list 1
unfolding Fcb.s_block get_u16
fs_two-IsStack = record {
  depth = omega arith;
  used = λ j h. ground arith;
  free = λ j h h'. ground arith;
  link = λ j h. ground arith;
  apart = λ j k h h'. ground arith;
}

a_t-Fresh : Fresh fs_root 2
unfolding Fcb.s_block get_u16
a_t-Fresh = λ j h. ground arith

my_close-Popped_example : Popped 0 (my_close fs_two 1)
my_close-Popped_example = my_close-Popped fs_two 0 fs_two-IsStack

my_open-Pushed_example :
    (s' : Fs) × (my_open fs_root (b'a' ∷ b'.' ∷ b't' ∷ []) ≡ some (0, s')) × Pushed fs_root s'
unfolding Fcb.in_use Fcb.s_block Fcb.len Fcb.attr judge_dir get_u32 get_u16 file_name_match read_str
    str_eq split_name strtok skip_delims token after_token
my_open-Pushed_example =
    my_open-Pushed fs_root (b'a' ∷ b'.' ∷ b't' ∷ []) (b'a' ∷ []) (b't' ∷ []) 2 (omega arith) refl
      fs-Counts refl fs_root-IsStack (omega arith) a_t-Fresh (omega arith)

enter_child-Enters_example : Enters fs_root 2 (b'a' ∷ []) (enter_child fs_root 2 (b'a' ∷ []))
enter_child-Enters_example = enter_child-Enters fs_root 2 (b'a' ∷ []) fs_root-IsStack a_t-Fresh

close_all-root_example :
    (s' : Fs) × (close_all 2 fs_two ≡ some s') × (s'.curr_oft_index ≡ 0) × IsStack s'.oft_list 0
close_all-root_example = close_all-root 2 1 fs_two refl fs_two-IsStack (omega arith)

abbrev host : Host
host = record { address = 1048576; disk = posix; scan = λ input. (0, input); cd_rounds = 4 }

abbrev world : World
world = record { fs = fs_two; flag = true; file = none; input = []; output = [] }

run_lines-exit_example :
    (w' : World) × (run_lines host world (get_or cmds 11 [] ∷ []) ≡ some w')
    × (w'.flag ≡ false)
    × (w'.fs.curr_oft_index ≡ 0)
    × (w'.file ≡ some w'.fs.vd)
unfolding strtok skip_delims token after_token
run_lines-exit_example =
    run_lines-exit host world (get_or cmds 11 []) [] [] refl refl refl fs_two-IsStack

print_file-init_fcb_example :
    ((print_file (init_fcb vd 5216 (b'b' ∷ []) (b't' ∷ []) 1 (noon 0)) 5216).filename ≡ b'b' ∷ [])
    × ((print_file (init_fcb vd 5216 (b'b' ∷ []) (b't' ∷ []) 1 (noon 0)) 5216).length ≡ 0)
    × ShowsDates (print_file (init_fcb vd 5216 (b'b' ∷ []) (b't' ∷ []) 1 (noon 0)) 5216) (noon 0)
print_file-init_fcb_example =
    print_file-init_fcb vd 5216 (b'b' ∷ []) (b't' ∷ []) 1 (noon 0)
      (record {
        name_text = omega arith;
        ext_text = omega arith;
        name_fits = omega arith;
        ext_fits = omega arith;
      })
      (record {
        hour = omega arith;
        min = omega arith;
        sec = omega arith;
        year = omega arith;
        mon = omega arith;
        mday = omega arith;
        wday = omega arith;
      })

-- "hi" is typed, and "0" for a rewrite.
my_write-Typed_example :
    Typed 1 (b'h' ∷ b'i' ∷ []) [] (my_write host.scan fs 1 (10 ∷ b'h' ∷ b'i' ∷ b'#' ∷ b'&' ∷ []))
unfolding Fcb.attr skip_line
my_write-Typed_example =
    my_write-Typed host.scan fs 1 (6 ∷ []) (b'h' ∷ b'i' ∷ []) (10 ∷ b'h' ∷ b'i' ∷ b'#' ∷ b'&' ∷ [])
      (10 ∷ b'h' ∷ b'i' ∷ b'#' ∷ b'&' ∷ []) [] (omega arith) fs-IsOpen (omega arith) (omega arith)
      (omega arith) (omega arith) refl refl

my_ls-lines_from_example :
    my_ls fs_root false ≡ some (lines_from vd 5120 false 30 2, rewound fs_root)
unfolding Fcb.in_use Fcb.s_block Fcb.len Fcb.attr judge_dir get_u32 get_u16
my_ls-lines_from_example = my_ls-lines_from fs_root false refl fs-Counts (omega arith)

-- The same disk with the entries "." and ".." of the root directory.
abbrev dotted : Mem
dotted a =
    if a == 5120
    then b'.'
    else if a == 5128
    then b'd'
    else if a == 5129
    then b'i'
    else if a == 5160
    then b'd'
    else if a == 5161
    then b'i'
    else if a == 5131
    then 4
    else if a == 5132
    then 1
    else if a == 5152
    then b'.'
    else if a == 5153
    then b'.'
    else if a == 5163
    then 4
    else if a == 5164
    then 1
    else vd a

abbrev fs_dotted : Fs
fs_dotted = record fs_root { vd = dotted }

-- A directory on block 6, with its two entries, in the slot above the root's.
abbrev with_dir : Mem
with_dir a =
    if a == 6144
    then b'.'
    else if a == 6152
    then b'd'
    else if a == 6153
    then b'i'
    else if a == 6184
    then b'd'
    else if a == 6185
    then b'i'
    else if a == 6155
    then 4
    else if a == 6156
    then 1
    else if a == 6176
    then b'.'
    else if a == 6177
    then b'.'
    else if a == 6187
    then 4
    else if a == 6188
    then 1
    else dotted a

abbrev dir_fcb : Mem
dir_fcb a = if a == 11 then 4 else if a == 12 then 1 else if a == 20 then 6 else 0

abbrev fs_dir : Fs
fs_dir = record fs {
  vd = with_dir;
  oft_list = λ i. if i == 0 then root else record file { fcb = dir_fcb; is_use = i == 1 };
  curr_oft_index = 1;
}

fs_dir-IsStack : IsStack fs_dir.oft_list 1
unfolding Fcb.s_block get_u16
fs_dir-IsStack = record {
  depth = omega arith;
  used = λ j h. ground arith;
  free = λ j h h'. ground arith;
  link = λ j h. ground arith;
  apart = λ j k h h'. ground arith;
}

fs_dir-HasEntry : HasEntry fs_dir dot_dot 1
unfolding Fcb.in_use Fcb.s_block Fcb.len Fcb.attr judge_dir get_u32 get_u16 file_name_match read_str
    str_eq
fs_dir-HasEntry = record { is_dir = refl; counts = refl; first = refl; named = refl }

my_cd-dot_dot_example :
    (s' : Fs) × (my_cd 1 fs_dir dot_dot ≡ some s') × (s'.curr_oft_index ≡ 0) × IsStack s'.oft_list 0
my_cd-dot_dot_example = my_cd-dot_dot 0 fs_dir 0 1 refl fs_dir-IsStack fs_dir-HasEntry

fs_dotted-HasEntry : (s' : Fs) → close_all 10 fs_dotted ≡ some s' → HasEntry s' dot 0
unfolding close_all Fcb.in_use Fcb.s_block Fcb.len Fcb.attr judge_dir get_u32 get_u16
    file_name_match read_str str_eq
fs_dotted-HasEntry s' e = subst (λ s. HasEntry s dot 0) (ap the e) here_it
  where
    the : Option Fs → Fs
    the none = fs_dotted
    the (some s) = s

    here_it : HasEntry fs_dotted dot 0
    here_it = record { is_dir = refl; counts = refl; first = refl; named = refl }

my_cd-root_example :
    (s' : Fs) × (my_cd 1 fs_dotted root_text ≡ some s')
    × (s'.curr_oft_index ≡ 0)
    × IsStack s'.oft_list 0
my_cd-root_example = my_cd-root 0 0 fs_dotted fs_root-IsStack fs_dotted-HasEntry
