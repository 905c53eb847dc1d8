-- ===== src/FileSystem/Format/Disk.antt =====
-- The tables of a disk that `my_format` has written.
use hdu_os_experiment.Common.{
  ℕ, zero, suc, ◌+◌, ◌%◌, ◌<◌, ◌≡◌, arith, ◌&&◌, leb, ltb, if◌then◌else◌,
}
use hdu_os_experiment.Memory.{Mem}
use hdu_os_experiment.FileSystem.Fat.{next_num, set_next, end_mark, free_mark}
use hdu_os_experiment.FileSystem.Fat.Entry.{next_num-set_next}
use hdu_os_experiment.FileSystem.Format.{fill_entries, write_fat1}

next_num-fill_entries :
    (left : ℕ) (m : Mem) (i v j : ℕ)
    → next_num (fill_entries left m i v) j
      ≡ (if leb i j && ltb j (i + left) then v % 65536 else next_num m j)
unfolding fill_entries
next_num-fill_entries zero m i v j = ground arith
next_num-fill_entries (suc left) m i v j =
    ground
      (arith, next_num-fill_entries left (set_next m i v) (i + 1) v j, next_num-set_next m i v j)

pub write_fat1-entries :
    (m : Mem) (j : ℕ)
    → j < 1024
    → next_num (write_fat1 m) j ≡ (if leb j 5 then end_mark else free_mark)
unfolding write_fat1
write_fat1-entries m j h =
    let m1 = fill_entries 5 m 0 end_mark in
    let m2 = fill_entries 1019 m1 5 free_mark in
    ground (
      arith,
      next_num-set_next m2 5 end_mark j,
      next_num-fill_entries 1019 m1 5 free_mark j,
      next_num-fill_entries 5 m 0 end_mark j,
    )
