-- ===== src/FileSystem/Fat.antt =====
-- The file allocation table of exam5/File_System/main.cpp, and the functions that take a block
-- from it and give blocks back.
pub mod Entry
pub mod Chain
pub mod Next
pub mod Delete
pub mod Mirror
use hdu_os_experiment.Common.{
  ℕ, zero, suc, ◌+◌, ◌-◌, ◌*◌, ◌/◌, Bool, true, false, Option, none, some, ◌==◌, ltb, if◌then◌else◌,
}
use hdu_os_experiment.Memory.{Mem, get_u16, set_u16, memcpy}
use hdu_os_experiment.FileSystem.Fcb
use hdu_os_experiment.FileSystem.Fcb.{fcb_size}

abbrev pub vd_block_size : ℕ
vd_block_size = 1024

abbrev pub vd_block_num : ℕ
vd_block_num = 1024

abbrev pub block_index_fat1 : ℕ
block_index_fat1 = 1

abbrev pub block_index_fat2 : ℕ
block_index_fat2 = 3

abbrev pub block_index_root_dir : ℕ
block_index_root_dir = 5

abbrev pub block_index_data_area : ℕ
block_index_data_area = 5

-- The marks of a last block and of a free one.
abbrev pub end_mark : ℕ
end_mark = 65535

abbrev pub free_mark : ℕ
free_mark = 65534

-- `get_block_ptr`.
abbrev pub get_block_ptr : ℕ → ℕ
get_block_ptr blocknum = vd_block_size * blocknum

-- `fat1[i].next_num`.
unfoldable pub next_num : Mem → ℕ → ℕ
next_num m i = get_u16 m (get_block_ptr block_index_fat1 + 2 * i)

unfoldable pub set_next : Mem → ℕ → ℕ → Mem
set_next m i v = set_u16 m (get_block_ptr block_index_fat1 + 2 * i) v

-- The loop of `getNextVhdBlock` at index `i`, with so many rounds left. The statement in its
-- branch is a comparison, `next_num == END`, and stores nothing.
unfoldable pub scan_free : ℕ → Mem → ℕ → ℕ
scan_free zero m i = end_mark
scan_free (suc left) m i =
    let rest = scan_free left m (i + 1) in if next_num m i == free_mark then i else rest

-- `getNextVhdBlock`.
unfoldable pub get_next_vhd_block : Mem → ℕ
get_next_vhd_block m = scan_free (vd_block_num - block_index_data_area) m block_index_data_area

-- `memcpy (fat2, fat1, VD_BLOCK_SIZE * 2)`.
unfoldable pub sync_fat2 : Mem → Mem
sync_fat2 m =
    memcpy m (get_block_ptr block_index_fat2) m (get_block_ptr block_index_fat1) (vd_block_size * 2)

-- The loop of `deleteFileAtFat`; `none` means that it does not end in so many rounds.
unfoldable pub delete_file_at_fat : ℕ → Mem → ℕ → Option Mem
delete_file_at_fat zero m current = none
delete_file_at_fat (suc fuel) m current =
    let next = next_num m current in
    let m' = set_next m current free_mark in
    let rest = delete_file_at_fat fuel m' next in
    if next == end_mark then some (set_next m' next free_mark) else rest

-- `deleteDirAtFat` of the FCB at `p`, and its loop over the entries of the block at `child`.
unfoldable mutual
  pub delete_dir_at_fat : ℕ → Mem → ℕ → Option Mem
  delete_dir_at_fat zero m p = none
  delete_dir_at_fat (suc fuel) m p =
      elim (delete_children fuel m (get_block_ptr (Fcb.s_block m p)) 2 (Fcb.len m p / fcb_size)) [
        | none ↦ none
        | some m' ↦ some (set_next m' (Fcb.s_block m' p) free_mark)
      ]

  pub delete_children : ℕ → Mem → ℕ → ℕ → ℕ → Option Mem
  delete_children zero m child i fnum = none
  delete_children (suc fuel) m child i fnum =
      let entry = child + fcb_size * i in
      elim (ltb i (fnum + 2)) [
        | false ↦ some m
        | true ↦ elim (Fcb.in_use m entry == 0) [
          | true ↦ delete_children fuel m child (i + 1) (fnum + 1)
          | false ↦
              let deleted : Option Mem = elim (Fcb.judge_dir m entry) [
                | true ↦ delete_dir_at_fat fuel m entry
                | false ↦ delete_file_at_fat fuel m (Fcb.s_block m entry)
              ] in
              elim deleted [ none ↦ none | some m' ↦ delete_children fuel m' child (i + 1) fnum ]
        ]
      ]
