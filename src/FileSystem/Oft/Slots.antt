-- ===== src/FileSystem/Oft/Slots.antt =====
-- The slots of the open file table: `getNextOft` takes the first that is free.
use hdu_os_experiment.Common.{
  ℕ, zero, suc, ◌+◌, ◌≤◌, ◌<◌, ◌≡◌, ◌≢◌, arith, Option, none, some, true, false, ◌==◌, Bool-cases,
  inl, inr,
}
use hdu_os_experiment.FileSystem.Oft.{Oft, set_oft, scan_oft, get_next_oft, oft_max_len}

-- What a scan from `i` over `left` slots gives.
abbrev pub FirstSlot : (ℕ → Oft) → ℕ → ℕ → Option ℕ → Type 0
FirstSlot l i left none = (j : ℕ) → i ≤ j → j < i + left → (l j).is_use ≡ true
FirstSlot l i left (some k) =
    (i ≤ k)
    × (k < i + left)
    × ((l k).is_use ≡ false)
    × ((j : ℕ) → i ≤ j → j < k → (l j).is_use ≡ true)

FirstSlot-suc :
    (l : ℕ → Oft) (i left : ℕ) (r : Option ℕ)
    → (l i).is_use ≡ true
    → FirstSlot l (i + 1) left r
    → FirstSlot l i (suc left) r
FirstSlot-suc l i left none taken h = λ j lo hi. elim (Bool-cases (j == i)) [
  | inl at ↦ ground arith
  | inr past ↦ h j (ground arith) (omega arith)
]
FirstSlot-suc l i left (some k) taken h = (
  omega arith,
  omega arith,
  h.2,
  λ j lo hi. elim (Bool-cases (j == i)) [
    | inl at ↦ ground arith
    | inr past ↦ h.3 j (ground arith) hi
  ],
)

scan_oft-FirstSlot : (left : ℕ) (l : ℕ → Oft) (i : ℕ) → FirstSlot l i left (scan_oft left l i)
unfolding scan_oft
scan_oft-FirstSlot zero l i = λ j lo hi. absurd (omega arith)
scan_oft-FirstSlot (suc left) l i = elim (Bool-cases (l i).is_use) [
  | inl taken ↦
      rw taken
        (FirstSlot-suc l i left (scan_oft left l (i + 1)) taken (scan_oft-FirstSlot left l (i + 1)))
  | inr free ↦ rw free (omega arith, omega arith, free, λ j lo hi. absurd (omega arith))
]

-- The slot taken, and the table then.
abbrev pub Taken : (ℕ → Oft) → Option (ℕ × (ℕ → Oft)) → Type 0
Taken l none = FirstSlot l 0 oft_max_len none
Taken l (some (k, l')) =
    FirstSlot l 0 oft_max_len (some k) × ((l' k).is_use ≡ true) × ((j : ℕ) → j ≢ k → l' j ≡ l j)

Taken-of_scan :
    (l : ℕ → Oft) (r : Option ℕ)
    → FirstSlot l 0 oft_max_len r
    → Taken l
        (elim r [ none ↦ none | some i ↦ some (i, set_oft l i (record (l i) { is_use = true })) ])
unfolding set_oft
Taken-of_scan l none h = h
Taken-of_scan l (some k) h = (h, ground arith, λ j ne. ground arith)

-- `getNextOft` takes the least slot of the ten that is free, marks it as in use and changes
-- no other; it takes none only if all are in use.
pub get_next_oft-Taken : (l : ℕ → Oft) → Taken l (get_next_oft l)
unfolding get_next_oft
get_next_oft-Taken l = Taken-of_scan l (scan_oft oft_max_len l 0) (scan_oft-FirstSlot 10 l 0)
