-- ===== src/FileSystem/Fat/Next.antt =====
-- `getNextVhdBlock` is the first free block of the table, and the end mark if there is none.
use hdu_os_experiment.Common.{
  ℕ, zero, suc, ◌+◌, ◌≤◌, ◌<◌, ◌≡◌, ◌≢◌, ◌⊎◌, refl, arith, inl, inr, ==→eq, Bool-cases, ◌==◌,
}
use hdu_os_experiment.Memory.{Mem}
use hdu_os_experiment.FileSystem.Fat.{
  next_num, scan_free, get_next_vhd_block, end_mark, free_mark, vd_block_num, block_index_data_area,
}

-- `r` is the least free block in `[lo, hi)`, or the end mark when none there is free.
pub record IsFirstFree (m : Mem) (lo hi r : ℕ) : Type 0 where
  pub free_or_end : ((lo ≤ r) × (r < hi) × (next_num m r ≡ free_mark)) ⊎ (r ≡ end_mark)
  pub below_taken : (j : ℕ) → lo ≤ j → j < hi → j < r → next_num m j ≢ free_mark

scan_free_lem : (m : Mem) (left i : ℕ) → IsFirstFree m i (i + left) (scan_free left m i)
unfolding scan_free
scan_free_lem m zero i = record {
  free_or_end = inr refl;
  below_taken = λ j lo hi lt. absurd (omega arith);
}
scan_free_lem m (suc left) i = elim (Bool-cases (next_num m i == free_mark)) [
  | inl free ↦ rw free (record {
    free_or_end = inl (omega arith, omega arith, ==→eq _ _ free);
    below_taken = λ j lo hi lt. absurd (omega arith);
  })
  | inr taken ↦
      let rest = scan_free_lem m left (i + 1) in
      rw taken (record {
        free_or_end = ground (arith, rest.free_or_end);
        below_taken = λ j lo hi lt e. ground (arith, rest.below_taken j);
      })
]

-- `getNextVhdBlock` gives the least block from the data area on whose entry is free, and the end
-- mark only if no block there is free.
pub get_next_vhd_block_lem :
    (m : Mem) → IsFirstFree m block_index_data_area vd_block_num (get_next_vhd_block m)
unfolding get_next_vhd_block
get_next_vhd_block_lem m = scan_free_lem m 1019 5
