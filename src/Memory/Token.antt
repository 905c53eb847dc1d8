-- ===== src/Memory/Token.antt =====
-- `strtok` of string.h, as exam5/File_System/main.cpp calls it: with one delimiter, and twice on a
-- file name.
use hdu_os_experiment.Common.{ℕ, Option, none, some, List, [], ◌∷◌, ◌==◌, if◌then◌else◌}

unfoldable pub skip_delims : ℕ → List ℕ → List ℕ
skip_delims d [] = []
skip_delims d (c ∷ cs) = if c == d then skip_delims d cs else c ∷ cs

unfoldable pub token : ℕ → List ℕ → List ℕ
token d [] = []
token d (c ∷ cs) = if c == d then [] else c ∷ token d cs

unfoldable pub after_token : ℕ → List ℕ → List ℕ
after_token d [] = []
after_token d (c ∷ cs) = if c == d then cs else after_token d cs

-- The first token, with what the next call will look at; `none` is the null pointer.
unfoldable pub strtok : ℕ → List ℕ → Option (List ℕ × List ℕ)
strtok d s = elim (skip_delims d s) [
  | [] ↦ none
  | c ∷ cs ↦ some (token d (c ∷ cs), after_token d (c ∷ cs))
]

-- The two parts of a file name, `fname = strtok (filename, ".")` and `ename = strtok (NULL, ".")`.
pub data Parts : Type 0 where
  no_name : Parts
  name_only : List ℕ → Parts
  name_ext : List ℕ → List ℕ → Parts

unfoldable pub split_name : List ℕ → Parts
split_name filename = elim (strtok b'.' filename) [
  | none ↦ no_name
  | some (fname, rest) ↦ elim (strtok b'.' rest) [
    | none ↦ name_only fname
    | some (ename, _) ↦ name_ext fname ename
  ]
]
