-- ===== src/FileSystem/Command.antt =====
-- `getIndexOfCmd` and `excuteCmd` of exam5/File_System/main.cpp: a line of the terminal as a command.
pub mod Dispatch
pub mod Undo
use hdu_os_experiment.Common.{
  ℕ, zero, suc, ◌+◌, Bool, true, false, Option, none, some, List, [], ◌∷◌, ◌==◌, if◌then◌else◌,
}
use hdu_os_experiment.Memory.{Mem, str_eq}
use hdu_os_experiment.Memory.Token.{strtok}
use hdu_os_experiment.FileSystem.Fcb.{judge_dir}
use hdu_os_experiment.FileSystem.Oft.{Fs, Oft}
use hdu_os_experiment.FileSystem.Create.{my_mkdir, my_create}
use hdu_os_experiment.FileSystem.Delete.{my_rmdir, my_rm}
use hdu_os_experiment.FileSystem.Read.{my_read}
use hdu_os_experiment.FileSystem.Format.{HostFile, my_format}
use hdu_os_experiment.FileSystem.Open.{my_open, my_close}
use hdu_os_experiment.FileSystem.Control.{my_ctrl}
use hdu_os_experiment.FileSystem.Cd.{my_cd}
use hdu_os_experiment.FileSystem.Listing.{Line, my_ls}
use hdu_os_experiment.FileSystem.Input.{skip_line, my_write}
use hdu_os_experiment.FileSystem.Session.{my_exit_sys}

abbrev pub cmds : List (List ℕ)
cmds =
    (b'm' ∷ b'y' ∷ b'_' ∷ b'f' ∷ b'o' ∷ b'r' ∷ b'm' ∷ b'a' ∷ b't' ∷ [])
    ∷ (b'm' ∷ b'y' ∷ b'_' ∷ b'm' ∷ b'k' ∷ b'd' ∷ b'i' ∷ b'r' ∷ [])
    ∷ (b'm' ∷ b'y' ∷ b'_' ∷ b'r' ∷ b'm' ∷ b'd' ∷ b'i' ∷ b'r' ∷ [])
    ∷ (b'm' ∷ b'y' ∷ b'_' ∷ b'l' ∷ b's' ∷ [])
    ∷ (b'm' ∷ b'y' ∷ b'_' ∷ b'c' ∷ b'd' ∷ [])
    ∷ (b'm' ∷ b'y' ∷ b'_' ∷ b'c' ∷ b'r' ∷ b'e' ∷ b'a' ∷ b't' ∷ b'e' ∷ [])
    ∷ (b'm' ∷ b'y' ∷ b'_' ∷ b'r' ∷ b'm' ∷ [])
    ∷ (b'm' ∷ b'y' ∷ b'_' ∷ b'o' ∷ b'p' ∷ b'e' ∷ b'n' ∷ [])
    ∷ (b'm' ∷ b'y' ∷ b'_' ∷ b'c' ∷ b'l' ∷ b'o' ∷ b's' ∷ b'e' ∷ [])
    ∷ (b'm' ∷ b'y' ∷ b'_' ∷ b'w' ∷ b'r' ∷ b'i' ∷ b't' ∷ b'e' ∷ [])
    ∷ (b'm' ∷ b'y' ∷ b'_' ∷ b'r' ∷ b'e' ∷ b'a' ∷ b'd' ∷ [])
    ∷ (b'm' ∷ b'y' ∷ b'_' ∷ b'e' ∷ b'x' ∷ b'i' ∷ b't' ∷ b's' ∷ b'y' ∷ b's' ∷ [])
    ∷ (b'm' ∷ b'y' ∷ b'_' ∷ b'c' ∷ b't' ∷ b'r' ∷ b'l' ∷ [])
    ∷ (b'm' ∷ b'y' ∷ b'_' ∷ b'm' ∷ b'a' ∷ b'n' ∷ [])
    ∷ (b'm' ∷ b'y' ∷ b'_' ∷ b'c' ∷ b'l' ∷ b'e' ∷ b'a' ∷ b'r' ∷ [])
    ∷ []

-- The loop of `getIndexOfCmd` at index `i`.
unfoldable pub find_cmd : List (List ℕ) → ℕ → List ℕ → Option ℕ
find_cmd [] i cmd = none
find_cmd (c ∷ rest) i cmd =
    let later = find_cmd rest (i + 1) cmd in if str_eq c cmd then some i else later

-- `getIndexOfCmd`; the argument `none` is the null pointer, the result `none` is -1.
unfoldable pub get_index_of_cmd : Option (List ℕ) → Option ℕ
get_index_of_cmd none = none
get_index_of_cmd (some []) = none
get_index_of_cmd (some (c ∷ cs)) = find_cmd cmds 0 (c ∷ cs)

-- What the commands print, apart from messages.
pub data Shown : Type 0 where
  text : List ℕ → Shown
  lines : List Line → Shown

-- The state of the program with its surroundings: the host's file, the input and the output.
pub record World : Type 0 where
  pub fs : Fs
  pub flag : Bool
  pub file : Option Mem
  pub input : List ℕ
  pub output : List Shown

-- What the program is given: the address of the disk, what opening the host's file gives, and
-- `scanf` of a number.
pub record Host : Type 0 where
  pub address : ℕ
  pub disk : HostFile
  pub scan : List ℕ → ℕ × List ℕ
  pub cd_rounds : ℕ

-- The state after an operation whose value is not used.
abbrev pub with_fs {ℓ} : {A : Type ℓ} → World → Option (A × Fs) → Option World
with_fs w none = none
with_fs w (some (code, s)) = some (record w { fs = s })

abbrev with_file : World → Option (Mem × Fs) → Option World
with_file w none = none
with_file w (some (file, s)) = some (record w { fs = s; file = some file })

abbrev with_input : World → Option (ℕ × List ℕ × Fs) → Option World
with_input w none = none
with_input w (some (code, input, s)) = some (record w { fs = s; input = input })

abbrev with_text : World → Option ((ℕ × List ℕ) × Fs) → Option World
with_text w none = none
with_text w (some ((code, out), s)) = some (record w { fs = s; output = text out ∷ w.output })

abbrev with_lines : World → Option (List Line × Fs) → Option World
with_lines w none = some w
with_lines w (some (out, s)) = some (record w { fs = s; output = lines out ∷ w.output })

abbrev with_cd : World → Option Fs → Option World
with_cd w none = none
with_cd w (some s) = some (record w { fs = s })

-- The end of the program: the flag is taken down.
abbrev stopped : World → Option (Mem × Fs) → Option World
stopped w none = none
stopped w (some (file, s)) = some (record w { fs = s; file = some file; flag = false })

-- A command that needs its argument.
abbrev given : World → Option (List ℕ) → (List ℕ → Option World) → Option World
given w none f = some w
given w (some arg) f = f arg

-- A command for data files alone.
abbrev on_file : World → Option World → Option World
on_file w r = if judge_dir (w.fs.oft_list w.fs.curr_oft_index).fcb 0 then some w else r

-- A command for directories alone.
abbrev on_directory : World → Option World → Option World
on_directory w r = if judge_dir (w.fs.oft_list w.fs.curr_oft_index).fcb 0 then r else some w

-- `arg2 != NULL && strcmp (arg2, "-l") == 0`.
abbrev is_long : Option (List ℕ) → Bool
is_long none = false
is_long (some a) = str_eq a (b'-' ∷ b'l' ∷ [])

-- The branch of `my_ctrl`: the number, and the rest of its line.
unfoldable pub ask_ctrl : Host → World → List ℕ → Option World
ask_ctrl h w arg =
    let (ctrl, input) = h.scan w.input in
    with_fs (record w { input = skip_line input }) (my_ctrl w.fs arg ctrl)

-- The switch of `excuteCmd`. `my_man` and `my_clear` only print.
unfoldable pub run_cmd : Host → World → Option ℕ → Option (List ℕ) → Option World
run_cmd h w none arg = some w
run_cmd h w (some cmd) arg =
    let i = w.fs.curr_oft_index in
    if cmd == 0
    then with_file w (my_format h.address h.disk w.fs)
    else if cmd == 1
    then given w arg (λ a. with_fs w (my_mkdir w.fs a))
    else if cmd == 2
    then given w arg (λ a. with_fs w (my_rmdir w.fs a))
    else if cmd == 3
    then with_lines w (my_ls w.fs (is_long arg))
    else if cmd == 4
    then given w arg (λ a. with_cd w (my_cd h.cd_rounds w.fs a))
    else if cmd == 5
    then given w arg (λ a. with_fs w (my_create w.fs a))
    else if cmd == 6
    then given w arg (λ a. with_fs w (my_rm w.fs a))
    else if cmd == 7
    then given w arg (λ a. with_fs w (my_open w.fs a))
    else if cmd == 8
    then on_file w (some (record w { fs = (my_close w.fs i).1 }))
    else if cmd == 9
    then on_file w (with_input w (my_write h.scan w.fs i w.input))
    else if cmd == 10
    then on_file w (with_text w (my_read w.fs i))
    else if cmd == 11
    then stopped w (my_exit_sys h.disk w.fs)
    else if cmd == 12
    then on_directory w (given w arg (ask_ctrl h w))
    else some w

-- `excuteCmd`. `none` means that the program ends otherwise than by its flag, or as said at the
-- operations.
unfoldable pub excute_cmd : Host → World → List ℕ → Option World
excute_cmd h w line = elim (strtok 32 line) [
  | none ↦ run_cmd h w (get_index_of_cmd none) none
  | some (arg1, rest) ↦ elim (strtok 32 rest) [
    | none ↦ run_cmd h w (get_index_of_cmd (some arg1)) none
    | some (arg2, _) ↦ run_cmd h w (get_index_of_cmd (some arg1)) (some arg2)
  ]
]

-- The loop of `main` over the lines that are typed, while the flag stands.
unfoldable pub run_lines : Host → World → List (List ℕ) → Option World
run_lines h w [] = some w
run_lines h w (line ∷ rest) = elim w.flag [
  | false ↦ some w
  | true ↦ elim (excute_cmd h w line) [ none ↦ none | some w' ↦ run_lines h w' rest ]
]
