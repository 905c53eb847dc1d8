-- ===== src/FileSystem/Oft/Names.antt =====
-- Which texts fit into `dirName`.
use hdu_os_experiment.Common.{
  ℕ, ◌≤◌, ◌≡◌, ◌⊎◌, inl, inr, Bool-cases, refl, arith, true, false, Option, none, some, List,
  length, ltb,
}
use hdu_os_experiment.FileSystem.Oft.{DirName, name_by_test, in_dir_name}

-- The array holds exactly the text; or the text and its NUL have more than 80 bytes.
abbrev pub Named : List ℕ → Option DirName → Type 0
Named cs none = 80 ≤ length cs
Named cs (some d) = d.chars ≡ cs

name_by_test-Named :
    (cs : List ℕ) (r : (ltb (length cs) 80 ≡ true) ⊎ (ltb (length cs) 80 ≡ false))
    → Named cs (name_by_test cs r)
unfolding name_by_test
name_by_test-Named cs (inl h) = refl
name_by_test-Named cs (inr h) = ground arith

pub in_dir_name-Named : (cs : List ℕ) → Named cs (in_dir_name cs)
unfolding in_dir_name
in_dir_name-Named cs = name_by_test-Named cs (Bool-cases (ltb (length cs) 80))
