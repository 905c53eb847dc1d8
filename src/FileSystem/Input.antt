-- ===== src/FileSystem/Input.antt =====
-- `my_write` of exam5/File_System/main.cpp: lines of the terminal, up to the mark "#&", go to a file.
pub mod Chunks
use hdu_os_experiment.Common.{
  ℕ, zero, suc, ◌+◌, ◌-◌, ◌%◌, Bool, true, false, Option, none, some, List, [], ◌∷◌, ◌++◌, ltb, leb,
  ◌==◌, if◌then◌else◌,
}
use hdu_os_experiment.FileSystem.Fcb
use hdu_os_experiment.FileSystem.Fat.{vd_block_size}
use hdu_os_experiment.FileSystem.Oft.{Fs, Oft, Fdt, oft_max_len, set_oft}
use hdu_os_experiment.FileSystem.Write.{write_pre_process, do_write}

-- `while ((c = getchar ()) != '\n' && c != EOF);`
unfoldable pub skip_line : List ℕ → List ℕ
skip_line [] = []
skip_line (c ∷ input) = if c == 10 then input else skip_line input

-- `oftPtr->fdt.isUpate = TRUE`.
abbrev pub updated : Fs → ℕ → Fs
updated s i =
    let o = s.oft_list i in
    let o' = record o { fdt = record (o.fdt) { is_upate = true } } in
    record s { oft_list = set_oft s.oft_list i o' }

-- What follows the last write: the rest of the line, and the flag.
abbrev pub after_write : ℕ → List ℕ → Option (ℕ × Fs) → Option (List ℕ × Fs)
after_write i input none = none
after_write i input (some (code, s)) = some (skip_line input, updated s i)

-- The mark has been read: the text of the buffer is written.
unfoldable pub finish_input : Fs → ℕ → List ℕ → List ℕ → Option (List ℕ × Fs)
finish_input s i text input = after_write i input (do_write s i text)

-- The loop that reads the text: the buffer, its count `len`, and what is still to be read. `none`
-- means that it does not end, at the end of the input, or is not described: a `#` before another
-- character makes `strcat` read a string without its NUL, and a NUL leaves the buffer behind `len`.
unfoldable pub read_input : List ℕ → Fs → ℕ → List ℕ → ℕ → Option (List ℕ × Fs)
read_input [] s i text len = none
read_input (c ∷ []) s i text len = none
read_input (c ∷ d ∷ input) s i text len = elim (c == b'#') [
  | true ↦ elim (d == b'&') [ true ↦ finish_input s i text input | false ↦ none ]
  | false ↦ elim (c == 0) [
    | true ↦ none
    | false ↦ elim (leb vd_block_size len) [
      | true ↦ elim (do_write s i text) [
        | none ↦ none
        | some (code, s') ↦ read_input (d ∷ input) s' i (c ∷ []) (len - vd_block_size + 1)
      ]
      | false ↦ read_input (d ∷ input) s i (text ++ c ∷ []) (len + 1)
    ]
  ]
]

-- The value of `my_write` when the loop has ended.
abbrev pub success : Option (List ℕ × Fs) → Option (ℕ × List ℕ × Fs)
success none = none
success (some (rest, s)) = some (0, rest, s)

-- `my_write` of slot `i`: its value, what is left of the input, and the state. `scan` is `scanf` of a
-- number, with what it leaves; a negative number is as wrong as one above 1.
unfoldable pub my_write : (List ℕ → ℕ × List ℕ) → Fs → ℕ → List ℕ → Option (ℕ × List ℕ × Fs)
my_write scan s i input =
    let (wstyle, input') = scan input in
    if ltb oft_max_len i
    then some (1, input, s)
    else if Fcb.attr (s.oft_list i).fcb 0 % 2 == 1
    then some (1, input, s)
    else if ltb 1 wstyle
    then some (1, input', s)
    else success (read_input (skip_line input') (write_pre_process s i (wstyle == 1)) i [] 0)
