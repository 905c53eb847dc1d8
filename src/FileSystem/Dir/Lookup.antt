-- ===== src/FileSystem/Dir/Lookup.antt =====
-- The loops that look up a name: in a directory whose length counts its entries in use they end,
-- and find the first entry in use with that name.
use hdu_os_experiment.Common.{
  lt→ltb, Bool-cases, inl, inr, ℕ, zero, suc, ◌+◌, ◌≤◌, ◌<◌, ◌≡◌, refl, arith, List, Bool, true,
  false, ◌&&◌, ◌||◌, not, ◌==◌, if◌then◌else◌, ◌/◌,
}
use hdu_os_experiment.Memory.{Mem}
use hdu_os_experiment.FileSystem.Fcb
use hdu_os_experiment.FileSystem.Fcb.{in_use, judge_dir, file_name_match}
use hdu_os_experiment.FileSystem.Fat.{get_block_ptr}
use hdu_os_experiment.FileSystem.Dir.{
  entry, same, Search, found, not_found, no_end, find_fcb, find_file, get_index_of_fcb,
  find_file_at_dir, name_taken,
}
use hdu_os_experiment.FileSystem.Dir.Used.{used, used_le}

module _ (m : Mem) (p : ℕ) (fname ename : List ℕ) (isdir : Bool) where
  -- The entry is in use and has the name and the kind that are looked for.
  abbrev pub wanted : ℕ → Bool
  wanted i =
      not (in_use m (entry p i) == 0)
      && (same (judge_dir m (entry p i)) isdir && file_name_match m (entry p i) fname ename)

  -- The first entry that is wanted among the `left` ones from `i` on.
  abbrev pub first_wanted : ℕ → ℕ → Search
  first_wanted zero i = not_found
  first_wanted (suc left) i =
      let rest = first_wanted left (i + 1) in if wanted i then found i else rest

  pub none_wanted : (left i : ℕ) → used left m p i ≡ 0 → first_wanted left i ≡ not_found
  none_wanted zero i h = refl
  none_wanted (suc left) i h = ground (arith, none_wanted left (i + 1))

  -- What is found lies in the range, and then some entry there is in use.
  pub first_wanted-bounds :
      (left i k : ℕ)
      → first_wanted left i ≡ found k
      → (i ≤ k) × (k < i + left) × (1 ≤ used left m p i)
  first_wanted-bounds zero i k h = cc
  first_wanted-bounds (suc left) i k h = elim (Bool-cases (wanted i)) [
    | inl hit ↦ ground arith
    | inr miss ↦ ground (arith, first_wanted-bounds left (i + 1) k)
  ]

  find_fcb-first_wanted :
      (left fuel i fcb_num : ℕ)
      → left < fuel
      → fcb_num + 2 ≡ i + used left m p i
      → find_fcb m p fname ename isdir fuel i fcb_num ≡ first_wanted left i
  unfolding find_fcb
  find_fcb-first_wanted left zero i fcb_num h e = absurd (omega arith)
  find_fcb-first_wanted zero (suc fuel) i fcb_num h e = ground arith
  find_fcb-first_wanted (suc left) (suc fuel) i fcb_num h e = ground (
    arith,
    none_wanted left (i + 1),
    find_fcb-first_wanted left fuel (i + 1) fcb_num,
    find_fcb-first_wanted left fuel (i + 1) (fcb_num + 1),
  )

  -- An entry that is not in use does not have the name.
  abbrev pub Cleared : ℕ → ℕ → Type 0
  Cleared zero i = Unit {0}
  Cleared (suc left) i =
      (in_use m (entry p i) ≡ 0 → file_name_match m (entry p i) fname ename ≡ false)
      × Cleared left (i + 1)

  find_file-first_wanted :
      (left fuel i fcb_num : ℕ)
      → left < fuel
      → fcb_num + 2 ≡ i + used left m p i
      → Cleared left i
      → find_file m p fname ename isdir fuel i fcb_num ≡ first_wanted left i
  unfolding find_file
  find_file-first_wanted left zero i fcb_num h e c = absurd (omega arith)
  find_file-first_wanted zero (suc fuel) i fcb_num h e c = ground arith
  find_file-first_wanted (suc left) (suc fuel) i fcb_num h e c = ground (
    arith,
    c.0,
    none_wanted left (i + 1),
    find_file-first_wanted left fuel (i + 1) fcb_num,
    find_file-first_wanted left fuel (i + 1) (fcb_num + 1),
  )

  abbrev pub is_found : Search → Bool
  is_found (found i) = true
  is_found not_found = false
  is_found no_end = false

  name_taken-first_wanted :
      (left rounds i k fcb_num : ℕ)
      → k ≡ i + 2
      → left ≤ rounds
      → fcb_num ≡ i + used left m p k
      → Cleared left k
      → name_taken m p fname ename isdir rounds i fcb_num ≡ is_found (first_wanted left k)
  unfolding name_taken
  name_taken-first_wanted zero zero i k fcb_num ek h e c = refl
  name_taken-first_wanted (suc left) zero i k fcb_num ek h e c = absurd (omega arith)
  name_taken-first_wanted zero (suc rounds) i k fcb_num ek h e c = ground arith
  name_taken-first_wanted (suc left) (suc rounds) i k fcb_num ek h e c = ground (
    arith,
    c.0,
    none_wanted left (k + 1),
    name_taken-first_wanted left rounds (i + 1) (k + 1) fcb_num,
    name_taken-first_wanted left rounds (i + 1) (k + 1) (fcb_num + 1),
  )

-- A directory at `p` whose length is `n` entries: as many are in use as the length says.
abbrev pub Counts : Mem → ℕ → ℕ → Type 0
Counts m p n = used 30 m p 2 ≡ n

-- `getIndexOfFcb` in a directory whose length counts its entries in use ends, and gives the first
-- entry in use, from the third on, with the name, the extension and the kind; `NOT_FOUND` if there
-- is none.
pub get_index_of_fcb-first_wanted :
    (m o : Mem) (q : ℕ) (fname ename : List ℕ) (isdir : Bool)
    → Counts m (get_block_ptr (Fcb.s_block o q)) (Fcb.len o q / 32)
    → get_index_of_fcb m o q fname ename isdir
      ≡ first_wanted m (get_block_ptr (Fcb.s_block o q)) fname ename isdir 30 2
unfolding get_index_of_fcb
get_index_of_fcb-first_wanted m o q fname ename isdir h =
    find_fcb-first_wanted m _ fname ename isdir 30 32768 2 _ (omega arith) (omega arith)

-- `findFileAtDir` gives the same entry, if moreover no entry out of use has the name.
pub find_file_at_dir-first_wanted :
    (m : Mem) (p len : ℕ) (fname ename : List ℕ) (isdir : Bool)
    → Counts m p (len / 32)
    → Cleared m p fname ename isdir 30 2
    → find_file_at_dir m p len fname ename isdir ≡ first_wanted m p fname ename isdir 30 2
unfolding find_file_at_dir
find_file_at_dir-first_wanted m p len fname ename isdir h c =
    rw (lt→ltb len 2147483648 (omega (arith, h, used_le 30 m p 2)))
      (find_file-first_wanted m p fname ename isdir 30 32768 2 _ (omega arith) (omega arith) c)

-- The search of `createfile` for the name finds it taken exactly if such an entry exists.
pub name_taken-is_found :
    (m : Mem) (p n : ℕ) (fname ename : List ℕ) (isdir : Bool)
    → Counts m p n
    → Cleared m p fname ename isdir 30 2
    → name_taken m p fname ename isdir 32 0 n
      ≡ is_found m p fname ename isdir (first_wanted m p fname ename isdir 30 2)
name_taken-is_found m p n fname ename isdir h c =
    name_taken-first_wanted m p fname ename isdir 30 32 0 2 n (omega arith) (omega arith)
      (omega arith) c

-- A check of `Cleared` by evaluation.
abbrev pub looks_cleared : Mem → ℕ → List ℕ → List ℕ → ℕ → ℕ → Bool
looks_cleared m p fname ename zero i = true
looks_cleared m p fname ename (suc left) i =
    (not (in_use m (entry p i) == 0) || not (file_name_match m (entry p i) fname ename))
    && looks_cleared m p fname ename left (i + 1)

pub Cleared-of_check :
    (m : Mem) (p : ℕ) (fname ename : List ℕ) (isdir : Bool) (left i : ℕ)
    → looks_cleared m p fname ename left i ≡ true
    → Cleared m p fname ename isdir left i
Cleared-of_check m p fname ename isdir zero i h = tt
Cleared-of_check m p fname ename isdir (suc left) i h =
    ground (arith, Cleared-of_check m p fname ename isdir left (i + 1))
