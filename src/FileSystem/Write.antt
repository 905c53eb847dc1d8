-- ===== src/FileSystem/Write.antt =====
-- `writePreProcess`, `do_write` and `my_write` of exam5/File_System/main.cpp: bytes go along the
-- chain of a file, which grows as it has to.
pub mod Stored
pub mod Fill
pub mod Advance
pub mod Loop
pub mod Cut
pub mod Position
pub mod Result
use hdu_os_experiment.Common.{
  ℕ, zero, suc, ◌+◌, ◌-◌, ◌*◌, ◌/◌, ◌%◌, Bool, true, false, Option, none, some, List, [], ◌∷◌, ◌++◌,
  ◌==◌, ltb, leb, length, if◌then◌else◌,
}
use hdu_os_experiment.Memory.{Mem, put}
use hdu_os_experiment.FileSystem.Fcb
use hdu_os_experiment.FileSystem.Fcb.{set_len, update_fcb_time}
use hdu_os_experiment.FileSystem.Fat.{
  vd_block_size, get_block_ptr, next_num, set_next, get_next_vhd_block, sync_fat2, end_mark,
}
use hdu_os_experiment.FileSystem.Dir.{entry}
use hdu_os_experiment.FileSystem.Oft.{Fs, Oft, Fdt, set_oft, skip}

-- The FCB on the disk of the file that `o` stands for.
abbrev pub fcb_on_disk : Oft → ℕ
fcb_on_disk o = entry (get_block_ptr o.fdt.pdf_block_no) o.fdt.fd_entry_no

-- `writePreProcess` of slot `i`; `append` is `WS_APPEND`, and otherwise `WS_REWRITE`.
unfoldable pub write_pre_process : Fs → ℕ → Bool → Fs
write_pre_process s i false =
    let o = s.oft_list i in
    let o' = record o { fcb = set_len o.fcb 0 0; fdt = record (o.fdt) { file_ptr = 0 } } in
    record s { vd = set_len s.vd (fcb_on_disk o) 0; oft_list = set_oft s.oft_list i o' }
write_pre_process s i true =
    let o = s.oft_list i in
    let o' = record o { fdt = record (o.fdt) { file_ptr = Fcb.len o.fcb 0 } } in
    record s { oft_list = set_oft s.oft_list i o' }

-- The first loop of `do_write`: the block and the offset in it of the file pointer.
pub data Seek : Type 0 where
  at : ℕ → ℕ → Seek
  lost : Seek
  no_end : Seek

unfoldable pub seek : ℕ → Mem → ℕ → ℕ → Seek
seek zero m block_no offset = no_end
seek (suc fuel) m block_no offset =
    let next = next_num m block_no in
    let rest = seek fuel m next (offset - vd_block_size) in
    if ltb (vd_block_size - 1) offset
    then (if next == end_mark then lost else rest)
    else at block_no offset

-- The loop that stores bytes in the block at `p`: the memory, the offset and the bytes left.
unfoldable pub fill : Mem → ℕ → ℕ → List ℕ → Mem × ℕ × List ℕ
fill m p offset [] = (m, offset, [])
fill m p offset (c ∷ text) =
    let rest = fill (put m (p + offset) c) p (offset + 1) text in
    if ltb offset vd_block_size then rest else (m, offset, c ∷ text)

-- The block after `block_no`, taken from the free ones at the end of the chain; none if there is
-- none left.
unfoldable pub advance : Mem → ℕ → Option (Mem × ℕ)
advance m block_no =
    let next = next_num m block_no in
    let fresh = get_next_vhd_block m in
    if next == end_mark
    then if fresh == end_mark
      then none
      else some (set_next (set_next m block_no fresh) fresh end_mark, fresh)
    else some (m, next)

pub data Writing : Type 0 where
  written : Mem → ℕ → Writing
  disk_full : Mem → Writing
  no_end : Writing

-- The outer loop of `do_write`: it ends with the last block written to.
unfoldable pub write_loop : ℕ → Mem → ℕ → ℕ → List ℕ → Writing
write_loop zero m block_no offset text = Writing.no_end
write_loop (suc fuel) m block_no offset [] = written m block_no
write_loop (suc fuel) m block_no offset (c ∷ text) =
    let (m', offset', rest) = fill m (get_block_ptr block_no) offset (c ∷ text) in
    elim (offset' == vd_block_size) [
      | true ↦ elim (advance m' block_no) [
        | none ↦ disk_full m'
        | some (m'', next) ↦ write_loop fuel m'' next 0 rest
      ]
      | false ↦ write_loop fuel m' block_no offset' rest
    ]

-- The loop that cuts the chain behind the last block written to.
unfoldable pub cut_chain : ℕ → Mem → ℕ → Option Mem
cut_chain zero m block_no = none
cut_chain (suc fuel) m block_no =
    let next = next_num m block_no in
    let rest = cut_chain fuel (set_next m block_no end_mark) next in
    if next == end_mark then some m else rest

-- The end of `do_write`, with the chain cut: the second table, and both FCBs of the file.
unfoldable pub close_write : Fs → ℕ → Mem → ℕ → Fs
close_write s i m len =
    let o = s.oft_list i in
    let fcb1 = set_len o.fcb 0 (Fcb.len o.fcb 0 + len) in
    let o' = record o {
      fcb = update_fcb_time fcb1 0 (s.clock 0);
      fdt = record (o.fdt) { file_ptr = o.fdt.file_ptr + len };
    } in
    let m1 = sync_fat2 m in
    let q = fcb_on_disk o in
    let m2 = set_len m1 q (Fcb.len m1 q + len) in
    record s {
      vd = update_fcb_time m2 q (s.clock 1);
      oft_list = set_oft s.oft_list i o';
      clock = skip 2 s.clock;
    }

-- The table has no more entries than this, and each round of the cut changes one to the end mark.
abbrev pub cut_rounds : ℕ
cut_rounds = 65536

-- `do_write` from the block and the offset that the file pointer stands for.
unfoldable pub write_from : Fs → ℕ → Seek → List ℕ → Option (ℕ × Fs)
write_from s i lost text = some (1, s)
write_from s i Seek.no_end text = none
write_from s i (at block_no offset) text =
    elim (write_loop (length text + 1) s.vd block_no offset text) [
      | Writing.no_end ↦ none
      | disk_full m ↦ some (1, record s { vd = m })
      | written m last ↦ elim (cut_chain cut_rounds m last) [
        | none ↦ none
        | some m' ↦ some (length text, close_write s i m' (length text))
      ]
    ]

-- `do_write` of slot `i`: the number of bytes, or 1 for a failure. `none` means that a loop does
-- not end.
unfoldable pub do_write : Fs → ℕ → List ℕ → Option (ℕ × Fs)
do_write s i text =
    let o = s.oft_list i in
    write_from s i (seek (o.fdt.file_ptr + 1) s.vd (Fcb.s_block o.fcb 0) o.fdt.file_ptr) text
