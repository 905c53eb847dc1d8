-- ===== src/FileSystem/Dir/Used.antt =====
-- The entries in use of a directory, counted, and `getNextFcb` among them.
use hdu_os_experiment.Common.{
  ℕ, zero, suc, ◌+◌, ◌≤◌, ◌<◌, ◌≡◌, ◌≢◌, arith, Option, none, some, ◌==◌, if◌then◌else◌, Bool-cases,
  inl, inr, ==→eq,
}
use hdu_os_experiment.Memory.{Mem}
use hdu_os_experiment.FileSystem.Fcb.{in_use}
use hdu_os_experiment.FileSystem.Dir.{entry, scan_fcb, get_next_fcb}

-- How many of the `left` entries from `i` on are in use.
abbrev pub used : ℕ → Mem → ℕ → ℕ → ℕ
used zero m p i = 0
used (suc left) m p i =
    let rest = used left m p (i + 1) in if in_use m (entry p i) == 0 then rest else rest + 1

pub used_le : (left : ℕ) (m : Mem) (p i : ℕ) → used left m p i ≤ left
used_le zero m p i = omega arith
used_le (suc left) m p i = ground (arith, used_le left m p (i + 1))

-- What a scan from `i` over `left` entries gives: the first that is not in use.
abbrev pub FirstUnused : Mem → ℕ → ℕ → ℕ → Option ℕ → Type 0
FirstUnused m p i left none = (j : ℕ) → i ≤ j → j < i + left → in_use m (entry p j) ≢ 0
FirstUnused m p i left (some k) =
    (i ≤ k)
    × (k < i + left)
    × (in_use m (entry p k) ≡ 0)
    × ((j : ℕ) → i ≤ j → j < k → in_use m (entry p j) ≢ 0)

FirstUnused-suc :
    (m : Mem) (p i left : ℕ) (r : Option ℕ)
    → in_use m (entry p i) ≢ 0
    → FirstUnused m p (i + 1) left r
    → FirstUnused m p i (suc left) r
FirstUnused-suc m p i left none taken h = λ j lo hi e. elim (Bool-cases (j == i)) [
  | inl at ↦ ground arith
  | inr past ↦ h j (ground arith) (omega arith) e
]
FirstUnused-suc m p i left (some k) taken h = (
  omega arith,
  omega arith,
  h.2,
  λ j lo hi e. elim (Bool-cases (j == i)) [
    | inl at ↦ ground arith
    | inr past ↦ h.3 j (ground arith) hi e
  ],
)

scan_fcb-FirstUnused : (left : ℕ) (m : Mem) (p i : ℕ) → FirstUnused m p i left (scan_fcb left m p i)
unfolding scan_fcb
scan_fcb-FirstUnused zero m p i = λ j lo hi. absurd (omega arith)
scan_fcb-FirstUnused (suc left) m p i = elim (Bool-cases (in_use m (entry p i) == 0)) [
  | inl free ↦ rw free (omega arith, omega arith, ==→eq _ _ free, λ j lo hi. absurd (omega arith))
  | inr taken ↦ rw taken (
      FirstUnused-suc m p i left (scan_fcb left m p (i + 1)) (ground arith)
        (scan_fcb-FirstUnused left m p (i + 1)))
]

-- `getNextFcb` gives the least entry from 2 to 31 that is not in use, and none only if all are.
pub get_next_fcb-FirstUnused : (m : Mem) (p : ℕ) → FirstUnused m p 2 30 (get_next_fcb m p)
unfolding get_next_fcb
get_next_fcb-FirstUnused m p = scan_fcb-FirstUnused 30 m p 2
