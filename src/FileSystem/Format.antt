-- ===== src/FileSystem/Format.antt =====
-- `my_format` of exam5/File_System/main.cpp: an empty disk, with the root directory open.
pub mod Disk
pub mod Root
pub mod Formatted
use hdu_os_experiment.Common.{
  ℕ, zero, suc, ◌+◌, ◌-◌, ◌/◌, Bool, true, false, Option, none, some, List, [], ◌∷◌, if◌then◌else◌,
  arith,
}
use hdu_os_experiment.Memory.{Mem, set_u16, set_u32, strcpy, memcpy}
use hdu_os_experiment.FileSystem.Fcb.{Tm, fcb_size}
use hdu_os_experiment.FileSystem.Fat.{
  get_block_ptr, set_next, sync_fat2, end_mark, free_mark, block_index_root_dir,
  block_index_data_area, vd_block_num,
}
use hdu_os_experiment.FileSystem.Dir.{dir_exname}
use hdu_os_experiment.FileSystem.Oft.{Fs, Oft, Fdt, set_oft, init_oft, oft_max_len, skip}
use hdu_os_experiment.FileSystem.Create.{init_file_fcb}

-- "This is jijiwuming's Virtual File System!"
abbrev pub sys_info : List ℕ
sys_info =
    b'T' ∷ b'h' ∷ b'i' ∷ b's' ∷ 32 ∷ b'i' ∷ b's' ∷ 32 ∷ b'j' ∷ b'i' ∷ b'j' ∷ b'i' ∷ b'w' ∷ b'u'
    ∷ b'm' ∷ b'i' ∷ b'n' ∷ b'g' ∷ 39 ∷ b's' ∷ 32 ∷ b'V' ∷ b'i' ∷ b'r' ∷ b't' ∷ b'u' ∷ b'a' ∷ b'l'
    ∷ 32 ∷ b'F' ∷ b'i' ∷ b'l' ∷ b'e' ∷ 32 ∷ b'S' ∷ b'y' ∷ b's' ∷ b't' ∷ b'e' ∷ b'm' ∷ 33 ∷ []

-- "\\root\\"
abbrev pub root_name : List ℕ
root_name = 92 ∷ b'r' ∷ b'o' ∷ b'o' ∷ b't' ∷ 92 ∷ []

-- The boot block; `address` is where `malloc` put the disk.
unfoldable pub write_boot : ℕ → Mem → Mem
write_boot address m =
    let m1 = strcpy m 0 sys_info in
    let m2 = set_u16 m1 80 block_index_root_dir in
    let data_block = address + get_block_ptr block_index_data_area in
    let m3 = set_u32 m2 88 data_block in set_u32 m3 92 (data_block / 4294967296)

-- The loop that gives `left` entries from `i` on the value `v`.
unfoldable pub fill_entries : ℕ → Mem → ℕ → ℕ → Mem
fill_entries zero m i v = m
fill_entries (suc left) m i v = fill_entries left (set_next m i v) (i + 1) v

-- The first table.
unfoldable pub write_fat1 : Mem → Mem
write_fat1 m =
    let m1 = fill_entries block_index_data_area m 0 end_mark in
    let m2 =
      fill_entries (vd_block_num - block_index_data_area) m1 block_index_data_area free_mark in
    set_next m2 block_index_root_dir end_mark

-- What `my_format` writes to the disk.
unfoldable pub format_disk : ℕ → Mem → (ℕ → Tm) → Mem
format_disk address m clock =
    init_file_fcb (sync_fat2 (write_fat1 (write_boot address m))) block_index_root_dir 0
      block_index_root_dir root_name dir_exname true clock

-- The loop of `initOft` over `left` slots from `i` on.
unfoldable pub init_slots : ℕ → (ℕ → Oft) → ℕ → (ℕ → Tm) → ℕ → Oft
init_slots zero l i clock = l
init_slots (suc left) l i clock =
    init_slots left (set_oft l i (init_oft (l i) (clock 0))) (i + 1) (skip 1 clock)

-- The first slot, for the root directory on the disk.
unfoldable pub open_root : Oft → Mem → Oft
open_root o m = record o {
  fcb = memcpy o.fcb 0 m (get_block_ptr block_index_root_dir) fcb_size;
  fdt = record (o.fdt) {
    dir_name = record { chars = root_name; fits = omega arith };
    pdf_block_no = block_index_root_dir;
    fd_entry_no = 0;
    is_upate = false;
    file_ptr = 0;
  };
  is_use = true;
}

-- The host's file, which is opened in text mode: whether it can be opened for writing, what it holds
-- after `fwrite` of the disk, and the memory after `fread` of what it holds into it.
pub record HostFile : Type 0 where
  pub opens : Bool
  pub fwrite : Mem → Mem
  pub fread : Mem → Mem → Mem

-- `saveVdFile`: what the host's file holds then; `none` means that it cannot be opened, and the
-- program exits.
abbrev pub save_vd_file : HostFile → Mem → Option Mem
save_vd_file f m = if f.opens then some (f.fwrite m) else none

-- `my_format`: the host's file, and the state.
unfoldable pub my_format : ℕ → HostFile → Fs → Option (Mem × Fs)
my_format address f s =
    let m = format_disk address s.vd s.clock in
    let l = init_slots oft_max_len s.oft_list 0 (skip 6 s.clock) in
    elim (save_vd_file f m) [
      | none ↦ none
      | some saved ↦ some (
        saved,
        record s {
          vd = m;
          oft_list = set_oft l 0 (open_root (l 0) m);
          curr_oft_index = 0;
          clock = skip 16 s.clock;
        },
      )
    ]
