-- ===== src/FileSystem/Input/Chunks.antt =====
-- A text of one buffer that is typed in, written and read again.
use hdu_os_experiment.Common.{
  ℕ, ◌+◌, ◌%◌, ◌≤◌, ◌<◌, ◌≡◌, ◌≢◌, ◌⊎◌, refl, arith, false, Option, none, some, List, [], ◌∷◌, ◌++◌,
  leb, length, inl, inr, ◌∙◌, ap, sym, le→ltb, eq→==, ne→==, subst,
}
use hdu_os_experiment.Memory.{Mem}
use hdu_os_experiment.Memory.Text.{IsText}
use hdu_os_experiment.FileSystem.Fcb
use hdu_os_experiment.FileSystem.Fat.{next_num, free_mark}
use hdu_os_experiment.FileSystem.Oft.{Fs, set_oft}
use hdu_os_experiment.FileSystem.Write.{write_pre_process}
use hdu_os_experiment.FileSystem.Write.Result.{IsOpen}
use hdu_os_experiment.FileSystem.Read.{my_read, read_loop, as_int}
use hdu_os_experiment.FileSystem.Read.RoundTrip.{ReadsBack, my_read-do_write}
use hdu_os_experiment.FileSystem.Input.{
  skip_line, finish_input, updated, after_write, success, read_input, my_write,
}

-- No character begins the mark, and none is a NUL.
abbrev pub Plain : List ℕ → Type 0
Plain [] = Unit {0}
Plain (c ∷ text) = (c ≢ b'#') × (c ≢ 0) × Plain text

-- The input: a text, the mark, and what follows.
abbrev pub marked : List ℕ → List ℕ → List ℕ
marked [] rest = b'#' ∷ b'&' ∷ rest
marked (c ∷ text) rest = c ∷ marked text rest

append_nil : (xs : List ℕ) → xs ++ [] ≡ xs
append_nil [] = refl
append_nil (x ∷ xs) = rw (append_nil xs) refl

append_one : (xs : List ℕ) (c : ℕ) (ys : List ℕ) → (xs ++ c ∷ []) ++ ys ≡ xs ++ c ∷ ys
append_one [] c ys = refl
append_one (x ∷ xs) c ys = rw (append_one xs c ys) refl

read_input-char :
    (c d : ℕ) (input : List ℕ) (s : Fs) (i : ℕ) (text : List ℕ) (len : ℕ)
    → c ≢ b'#'
    → c ≢ 0
    → len < 1024
    → read_input (c ∷ d ∷ input) s i text len
      ≡ read_input (d ∷ input) s i (text ++ c ∷ []) (len + 1)
unfolding read_input
read_input-char c d input s i text len h1 h2 h3 =
    rw (read_input, ne→== c b'#' h1, ne→== c 0 h2, full) refl
  where
    full : leb 1024 len ≡ false
    full = ground arith

read_input-marked :
    (text : List ℕ) (s : Fs) (i : ℕ) (buffer rest : List ℕ) (len : ℕ)
    → Plain text
    → len + length text ≤ 1024
    → read_input (marked text rest) s i buffer len ≡ finish_input s i (buffer ++ text) rest
unfolding read_input
read_input-marked [] s i buffer rest len p h = rw (append_nil buffer) refl
read_input-marked (c ∷ []) s i buffer rest len p h =
    read_input-char c b'#' (b'&' ∷ rest) s i buffer len p.0 p.1 (omega arith)
read_input-marked (c ∷ d ∷ text) s i buffer rest len p h =
    read_input-char c d (marked text rest) s i buffer len p.0 p.1 (omega arith)
    ∙ (read_input-marked (d ∷ text) s i (buffer ++ c ∷ []) rest (len + 1) p.2 (omega arith)
        ∙ ap (λ b. finish_input s i b rest) (append_one buffer c (d ∷ text)))

-- The value of `my_read` with another state.
with_state :
    (q : Option (ℕ × List ℕ)) (r : ℕ × List ℕ) (s s' t : Fs)
    → ◌≡◌ {A = Option ((ℕ × List ℕ) × Fs)}
        (elim q [ none ↦ none | some x ↦ some (x, s) ])
        (some (r, s'))
    → ◌≡◌ {A = Option ((ℕ × List ℕ) × Fs)}
        (elim q [ none ↦ none | some x ↦ some (x, t) ])
        (some (r, t))
with_state none r s s' t h = cc
with_state (some x) r s s' t h = ground arith

-- The state that `my_read` leaves.
abbrev at_start : Fs → ℕ → Fs
at_start s i =
    let o = s.oft_list i in
    record s {
      oft_list = set_oft s.oft_list i (record o { fdt = record (o.fdt) { file_ptr = 0 } });
    }

-- The loop of `my_read` on a disk and an FCB.
abbrev loop : Mem → Mem → Option (ℕ × List ℕ)
loop m fcb = read_loop (as_int (Fcb.len fcb 0) + 1) m (Fcb.s_block fcb 0) (as_int (Fcb.len fcb 0))

my_read-loop :
    (s : Fs) (i : ℕ)
    → i ≤ 10
    → my_read s i
      ≡ (elim (loop s.vd (s.oft_list i).fcb) [ none ↦ none | some x ↦ some (x, at_start s i) ])
unfolding my_read
my_read-loop s i slot = rw (le→ltb 10 i slot) refl

-- The flag that `my_write` sets does not change what `my_read` prints.
my_read-updated :
    (s : Fs) (i : ℕ) (r : ℕ × List ℕ) (s' : Fs)
    → i ≤ 10
    → my_read s i ≡ some (r, s')
    → (t : Fs) × (my_read (updated s i) i ≡ some (r, t))
unfolding set_oft
my_read-updated s i r s' slot run =
    let t = updated s i in
    let same : (t.oft_list i).fcb ≡ (s.oft_list i).fcb = rw (eq→== i i refl) refl in
    let shown =
      with_state (loop s.vd (s.oft_list i).fcb) r (at_start s i) s' (at_start t i)
        (sym (my_read-loop s i slot) ∙ run) in
    (
      at_start t i,
      my_read-loop t i slot
          ∙ subst
              (λ f.
                ◌≡◌ {A = Option ((ℕ × List ℕ) × Fs)}
                  (elim (loop s.vd f) [ none ↦ none | some x ↦ some (x, at_start t i) ])
                  (some (r, at_start t i)))
              (sym same) shown,
    )

-- What `my_write` returned, what is left of the input, and what `my_read` then prints.
abbrev pub Typed : ℕ → List ℕ → List ℕ → Option (ℕ × List ℕ × Fs) → Type 0
Typed i text rest none = ⊥
Typed i text rest (some (code, left, s')) =
    (code ≡ 0)
    × (left ≡ rest)
    × (((s'' : Fs) × (my_read s' i ≡ some ((0, text), s'')))
        ⊎ ((x : ℕ) → 5 ≤ x → x < 1024 → next_num s'.vd x ≢ free_mark))

Typed-ReadsBack :
    (i : ℕ) (text rest : List ℕ) (r : Option (ℕ × Fs))
    → i ≤ 10
    → ReadsBack i text r
    → Typed i text (skip_line rest) (success (after_write i rest r))
unfolding set_oft
Typed-ReadsBack i text rest none slot h = absurd h
Typed-ReadsBack i text rest (some (code, s')) slot (inl h) =
    (refl, refl, inl (my_read-updated s' i (0, text) h.1.0 slot h.1.1))
Typed-ReadsBack i text rest (some (code, s')) slot (inr h) = (refl, refl, inr h.1)

-- If a rewrite is chosen for a file that is not read-only, and a text of at most 1024 characters and
-- without a `#` is typed before the mark, `my_write` returns 0 and leaves the input after the line of
-- the mark; `my_read` then prints exactly that text, unless no block of the disk is free.
pub my_write-Typed :
    (scan : List ℕ → ℕ × List ℕ) (s : Fs) (i : ℕ) (bs text input input' rest : List ℕ)
    → i ≤ 10
    → IsOpen s i bs
    → Fcb.attr (s.oft_list i).fcb 0 % 2 ≢ 1
    → IsText text
    → Plain text
    → length text ≤ 1024
    → scan input ≡ (0, input')
    → skip_line input' ≡ marked text rest
    → Typed i text (skip_line rest) (my_write scan s i input)
unfolding my_write finish_input
my_write-Typed scan s i bs text input input' rest slot file writable t plain short asked typed =
    rw
      (
        le→ltb 10 i slot,
        ne→== _ 1 writable,
        asked,
        typed,
        read_input-marked text (write_pre_process s i false) i [] rest 0 plain (omega arith),
        finish_input,
      )
      (Typed-ReadsBack i text rest _ slot (my_read-do_write s i bs text slot file t (omega arith)))
