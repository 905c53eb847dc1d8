-- ===== src/FileSystem/Cd/Path.antt =====
-- The search of `open_curpath` for a directory by its name.
use hdu_os_experiment.Common.{
  ℕ, zero, suc, ◌+◌, ◌/◌, ◌<◌, ◌≡◌, refl, arith, true, Option, none, some, List, ◌==◌, ltb,
  if◌then◌else◌, Bool-cases, inl, inr, ne→==, eq→==, subst, sym,
}
use hdu_os_experiment.Memory.{Mem}
use hdu_os_experiment.FileSystem.Fcb
use hdu_os_experiment.FileSystem.Fcb.{in_use, judge_dir, file_name_match}
use hdu_os_experiment.FileSystem.Fat.{get_block_ptr}
use hdu_os_experiment.FileSystem.Dir.{entry, dir_exname, Search, found, not_found, no_end}
use hdu_os_experiment.FileSystem.Dir.Used.{used}
use hdu_os_experiment.FileSystem.Dir.Lookup.{first_wanted, none_wanted}
use hdu_os_experiment.FileSystem.Oft.{Fs}
use hdu_os_experiment.FileSystem.Create.File.{current, here}
use hdu_os_experiment.FileSystem.Cd.{Flag, failure, find_child, open_entry, open_curpath}

-- Where the loop stops, by the entry that is looked for.
abbrev pub Stops : ℕ × ℕ → Search → Type 0
Stops (i, n) (found k) = (i ≡ k) × (i < n + 2)
Stops (i, n) not_found = i ≡ n + 2
Stops (i, n) no_end = ⊥

find_child-Stops :
    (left : ℕ) (m : Mem) (p : ℕ) (name : List ℕ) (i n : ℕ)
    → n + 2 ≡ i + used left m p i
    → Stops (find_child left m p name i n) (first_wanted m p name dir_exname true left i)
unfolding find_child
find_child-Stops zero m p name i n e = ground arith
find_child-Stops (suc left) m p name i n e = elim (Bool-cases (ltb i (n + 2))) [
  | inr past ↦ rw past (
      subst (Stops (i, n)) (sym (none_wanted m p name dir_exname true (suc left) i (ground arith)))
        (ground arith))
  | inl go ↦ elim (Bool-cases (in_use m (entry p i) == 0)) [
    | inl unused ↦ rw (go, unused) (find_child-Stops left m p name (i + 1) (n + 1) (ground arith))
    | inr in_use ↦ elim (Bool-cases (file_name_match m (entry p i) name dir_exname)) [
      | inr other ↦ elim (Bool-cases (judge_dir m (entry p i))) [
        | inl dir ↦
            rw (go, in_use, other, dir) (find_child-Stops left m p name (i + 1) n (ground arith))
        | inr file ↦
            rw (go, in_use, other, file) (find_child-Stops left m p name (i + 1) n (ground arith))
      ]
      | inl same ↦ elim (Bool-cases (judge_dir m (entry p i))) [
        | inl dir ↦ rw (go, in_use, same, dir) (refl, ground arith)
        | inr file ↦
            rw (go, in_use, same, file) (find_child-Stops left m p name (i + 1) n (ground arith))
      ]
    ]
  ]
]

-- The result of `open_curpath` by the entry that is looked for.
abbrev pub opens_entry : Fs → List ℕ → Search → Option (Flag × Fs)
opens_entry s name (found k) = open_entry s k name
opens_entry s name not_found = some (failure, s)
opens_entry s name no_end = none

opens_entry-Stops :
    (s : Fs) (name : List ℕ) (r : ℕ × ℕ) (w : Search)
    → Stops r w
    → (if r.0 == r.1 + 2 then some (failure, s) else open_entry s r.0 name) ≡ opens_entry s name w
opens_entry-Stops s name (i, n) (found k) h = rw (ne→== i (n + 2) (omega (arith, h.1)), h.0) refl
opens_entry-Stops s name (i, n) not_found h = rw (eq→== i (n + 2) h) refl
opens_entry-Stops s name (i, n) no_end h = absurd h

-- In a directory whose length counts its entries in use but the first two, `open_curpath` goes on with
-- the first of all entries that is a directory of that name, and fails if there is none.
pub open_curpath-first_wanted :
    (s : Fs) (name : List ℕ)
    → judge_dir (current s).fcb 0 ≡ true
    → used 32 s.vd (get_block_ptr (here s)) 0 ≡ Fcb.len (current s).fcb 0 / 32 + 2
    → open_curpath s name
      ≡ opens_entry s name (first_wanted s.vd (get_block_ptr (here s)) name dir_exname true 32 0)
unfolding open_curpath
open_curpath-first_wanted s name dir counts = rw dir (
    opens_entry-Stops s name _ _
      (find_child-Stops 32 s.vd (get_block_ptr (here s)) name 0 _ (omega (arith, counts))))
