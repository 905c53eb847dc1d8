-- ===== src/FileSystem/Dir/Entered.antt =====
-- A directory of exam5/File_System/main.cpp in which one more entry has come into use: what the
-- searches find then.
use hdu_os_experiment.Common.{
  ℕ, zero, suc, ◌+◌, ◌≤◌, ◌<◌, ◌≡◌, ◌≢◌, refl, arith, true, Bool, List, Bool-cases, inl, inr, ◌==◌,
}
use hdu_os_experiment.Memory.{Mem}
use hdu_os_experiment.FileSystem.Fcb.{in_use, judge_dir, file_name_match}
use hdu_os_experiment.FileSystem.Fcb.Fields.{judge_dir_ext}
use hdu_os_experiment.FileSystem.Fcb.Init.{file_name_match_ext}
use hdu_os_experiment.FileSystem.Dir.{entry, found, not_found}
use hdu_os_experiment.FileSystem.Dir.Used.{used}
use hdu_os_experiment.FileSystem.Dir.Lookup.{wanted, first_wanted, Cleared}

-- The names, the attributes and the flags of the entries of the directory at `p` but entry `i` agree.
abbrev pub SameHeads : Mem → Mem → ℕ → ℕ → Type 0
SameHeads m m' p i =
    (k a : ℕ) → 2 ≤ k → k < 32 → k ≢ i → entry p k ≤ a → a < entry p k + 13 → m' a ≡ m a

module _ (m m' : Mem) (p i : ℕ) (same : SameHeads m m' p i) where
  same_use : (k : ℕ) → 2 ≤ k → k < 32 → k ≢ i → in_use m' (entry p k) ≡ in_use m (entry p k)
  unfolding in_use
  same_use k lo hi ne = same k (entry p k + 12) lo hi ne (omega arith) (omega arith)

  same_kind : (k : ℕ) → 2 ≤ k → k < 32 → k ≢ i → judge_dir m' (entry p k) ≡ judge_dir m (entry p k)
  same_kind k lo hi ne =
      judge_dir_ext m' m (entry p k) (same k (entry p k + 11) lo hi ne (omega arith) (omega arith))

  same_match :
      (fname ename : List ℕ) (k : ℕ)
      → 2 ≤ k
      → k < 32
      → k ≢ i
      → file_name_match m' (entry p k) fname ename ≡ file_name_match m (entry p k) fname ename
  same_match fname ename k lo hi ne =
      file_name_match_ext m' m (entry p k) fname ename
        λ a lo' hi'. same k a lo hi ne lo' (omega (arith, hi'))

  same_wanted :
      (fname ename : List ℕ) (isdir : Bool) (k : ℕ)
      → 2 ≤ k
      → k < 32
      → k ≢ i
      → wanted m' p fname ename isdir k ≡ wanted m p fname ename isdir k
  same_wanted fname ename isdir k lo hi ne =
      rw (same_use k lo hi ne, same_kind k lo hi ne, same_match fname ename k lo hi ne) refl

  used_after : (left k : ℕ) → 2 ≤ k → k + left ≤ 32 → i < k → used left m' p k ≡ used left m p k
  used_after zero k lo hi h = refl
  used_after (suc left) k lo hi h =
      rw
        (
          same_use k lo (omega arith) (omega arith),
          used_after left (k + 1) (omega arith) (omega arith) (omega arith),
        )
        refl

  pub used-Entered :
      (left k : ℕ)
      → in_use m (entry p i) ≡ 0
      → in_use m' (entry p i) ≡ 1
      → 2 ≤ k
      → k + left ≤ 32
      → k ≤ i
      → i < k + left
      → used left m' p k ≡ used left m p k + 1
  used-Entered zero k was now lo hi from below = absurd (omega arith)
  used-Entered (suc left) k was now lo hi from below = elim (Bool-cases (k == i)) [
    | inl e ↦ ground (arith, used_after left (k + 1))
    | inr ne ↦ ground (arith, same_use k, used-Entered left (k + 1))
  ]

  pub first_wanted-Entered :
      (fname ename : List ℕ) (isdir : Bool) (left k : ℕ)
      → wanted m' p fname ename isdir i ≡ true
      → 2 ≤ k
      → k + left ≤ 32
      → k ≤ i
      → i < k + left
      → first_wanted m p fname ename isdir left k ≡ not_found
      → first_wanted m' p fname ename isdir left k ≡ found i
  first_wanted-Entered fname ename isdir zero k hit lo hi from below none = absurd (omega arith)
  first_wanted-Entered fname ename isdir (suc left) k hit lo hi from below none =
      elim (Bool-cases (k == i)) [
        | inl e ↦ ground arith
        | inr ne ↦ ground (
          arith,
          same_wanted fname ename isdir k,
          first_wanted-Entered fname ename isdir left (k + 1),
        )
      ]

  pub Cleared-Entered :
      (fname ename : List ℕ) (isdir : Bool) (left k : ℕ)
      → in_use m' (entry p i) ≡ 1
      → 2 ≤ k
      → k + left ≤ 32
      → Cleared m p fname ename isdir left k
      → Cleared m' p fname ename isdir left k
  Cleared-Entered fname ename isdir zero k now lo hi c = tt
  Cleared-Entered fname ename isdir (suc left) k now lo hi c = (
    λ out. elim (Bool-cases (k == i)) [
      | inl e ↦ absurd (ground arith)
      | inr ne ↦ ground (arith, same_use k, same_match fname ename k, c.0)
    ],
    Cleared-Entered fname ename isdir left (k + 1) now (omega arith) (omega arith) c.1,
  )
