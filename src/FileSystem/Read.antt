-- ===== src/FileSystem/Read.antt =====
-- `my_read` of exam5/File_System/main.cpp: the bytes of a file, along its chain.
pub mod Loop
pub mod RoundTrip
use hdu_os_experiment.Common.{
  ℕ, zero, suc, ◌+◌, ◌-◌, ◌*◌, Option, none, some, List, [], ◌∷◌, ◌++◌, ◌==◌, ltb, leb,
  if◌then◌else◌,
}
use hdu_os_experiment.Memory.{Mem, read_str}
use hdu_os_experiment.FileSystem.Fcb
use hdu_os_experiment.FileSystem.Fat.{vd_block_size, get_block_ptr, next_num, end_mark}
use hdu_os_experiment.FileSystem.Oft.{Fs, Oft, oft_max_len, set_oft}

-- The loop that prints `n` bytes from `p` on.
unfoldable pub bytes : Mem → ℕ → ℕ → List ℕ
bytes m p zero = []
bytes m p (suc n) = m p ∷ bytes m (p + 1) n

abbrev pub print_before : List ℕ → Option (ℕ × List ℕ) → Option (ℕ × List ℕ)
print_before xs none = none
print_before xs (some (code, out)) = some (code, xs ++ out)

-- The outer loop of `my_read`: the value returned, with what is printed. `none` means that it does
-- not end in so many rounds.
unfoldable pub read_loop : ℕ → Mem → ℕ → ℕ → Option (ℕ × List ℕ)
read_loop zero m block_no len = none
read_loop (suc fuel) m block_no len =
    let p = get_block_ptr block_no in
    let next = next_num m block_no in
    let rest =
      print_before (bytes m p vd_block_size) (read_loop fuel m next (len - vd_block_size)) in
    if len == 0
    then some (0, [])
    else if leb vd_block_size len
    then (if next == end_mark then some (1, []) else rest)
    else some (0, read_str m p len)

-- A length of 2 ^ 31 and more is a negative `int`.
abbrev pub as_int : ℕ → ℕ
as_int len = if ltb len 2147483648 then len else 0

-- `my_read` of slot `i`.
unfoldable pub my_read : Fs → ℕ → Option ((ℕ × List ℕ) × Fs)
my_read s i =
    let o = s.oft_list i in
    let len = as_int (Fcb.len o.fcb 0) in
    let s' = record s {
      oft_list = set_oft s.oft_list i (record o { fdt = record (o.fdt) { file_ptr = 0 } });
    } in
    if ltb oft_max_len i
    then some ((1, []), s)
    else elim (read_loop (len + 1) s.vd (Fcb.s_block o.fcb 0) len) [
      | none ↦ none
      | some r ↦ some (r, s')
    ]
