-- ===== src/FileSystem/Read/Loop.antt =====
-- `my_read` prints a text that is stored along a chain.
use hdu_os_experiment.Common.{
  ℕ, zero, suc, ◌+◌, ◌-◌, ◌*◌, ◌≤◌, ◌<◌, ◌≡◌, ◌≢◌, refl, ap, ap₂, subst, leb→le, arith, List, [],
  ◌∷◌, ◌++◌, length, length-append, some, inl, inr, Bool-cases, leb, ◌∙◌, sym,
}
use hdu_os_experiment.Memory.{Mem, read_str}
use hdu_os_experiment.Memory.Text.{IsText}
use hdu_os_experiment.FileSystem.Fat.{next_num, end_mark}
use hdu_os_experiment.FileSystem.Write.Stored.{Stored, stop, byte, next}
use hdu_os_experiment.FileSystem.Read.{bytes, read_loop, print_before}

length-bytes : (m : Mem) (p n : ℕ) → length (bytes m p n) ≡ n
unfolding bytes
length-bytes m p zero = refl
length-bytes m p (suc n) = ap suc (length-bytes m (p + 1) n)

IsText-append : (xs ys : List ℕ) → IsText (xs ++ ys) → IsText ys
IsText-append [] ys h = h
IsText-append (x ∷ xs) ys h = IsText-append xs ys h.2

-- What is left of a text behind the first `k` bytes, which end block `b` at `p`.
record Split (m : Mem) (z l : ℕ) (ls : List ℕ) (b p k : ℕ) (text : List ℕ) : Type 0 where
  rest : List ℕ
  same : text ≡ bytes m p k ++ rest
  follows : ℕ
  low : follows < 1024
  linked : next_num m b ≡ follows
  stored : Stored m z l ls follows 0 rest

read_loop-short :
    (fuel : ℕ) (m : Mem) (b len : ℕ)
    → 0 < len
    → len < 1024
    → read_loop (suc fuel) m b len ≡ some (0, read_str m (1024 * b) len)
unfolding read_loop
read_loop-short fuel m b len pos short = ground arith

read_loop-long :
    (fuel : ℕ) (m : Mem) (b len : ℕ)
    → 1024 ≤ len
    → next_num m b ≢ end_mark
    → read_loop (suc fuel) m b len
      ≡ print_before (bytes m (1024 * b) 1024) (read_loop fuel m (next_num m b) (len - 1024))
unfolding read_loop
read_loop-long fuel m b len long more = ground arith

module _ {m : Mem} {z l : ℕ} {ls : List ℕ} where
  Stored-Split :
      {b off : ℕ} {text : List ℕ} (p k : ℕ)
      → Stored m z l ls b off text
      → p ≡ 1024 * b + off
      → off + k ≡ 1024
      → k ≤ length text
      → Split m z l ls b p k text
  unfolding bytes
  Stored-Split p k (stop e h) at full long = absurd (omega arith)
  Stored-Split p zero (byte h away e s) at full long = absurd (omega arith)
  Stored-Split p (suc k) (byte {c} h away e s) at full long =
      let r = Stored-Split (p + 1) k s (omega arith) (omega arith) (omega arith) in
      record {
        rest = r.rest;
        same =
            ap (λ t. c ∷ t) r.same
            ∙ ap (λ (v : ℕ). v ∷ (bytes m (p + 1) k ++ r.rest)) (sym e ∙ ap m (sym at));
        follows = r.follows;
        low = r.low;
        linked = r.linked;
        stored = r.stored;
      }
  Stored-Split p zero (next f b_lt lt e out s) at full long = record {
    rest = _;
    same = refl;
    follows = _;
    low = lt;
    linked = e;
    stored = s;
  }
  Stored-Split p (suc k) (next f b_lt lt e out s) at full long = absurd (omega arith)

  read_str-Stored :
      {b off : ℕ} {text : List ℕ} (p : ℕ)
      → Stored m z l ls b off text
      → p ≡ 1024 * b + off
      → off + length text < 1024
      → IsText text
      → read_str m p (length text) ≡ text
  unfolding read_str
  read_str-Stored p (stop e h) at short t = refl
  read_str-Stored p (byte h away e s) at short t =
      let here = ap m at ∙ e in
      ground (arith, here, read_str-Stored (p + 1) s (omega arith) (omega arith) t.2)
  read_str-Stored p (next f b_lt lt e out s) at short t = absurd (omega arith)

  -- The loop prints the text, given as many rounds as it has bytes.
  pub read_loop-Stored :
      (fuel : ℕ) {b : ℕ} (text : List ℕ)
      → Stored m z l ls b 0 text
      → IsText text
      → length text < fuel
      → read_loop fuel m b (length text) ≡ some (0, text)
  read_loop-Stored zero text s t f = absurd (omega arith)
  read_loop-Stored (suc fuel) [] s t f = unfold read_loop in refl
  read_loop-Stored (suc fuel) {b} (c ∷ text) s t f =
      elim (Bool-cases (leb 1024 (length (c ∷ text)))) [
        | inl long ↦
            let r = Stored-Split (1024 * b) 1024 s (omega arith) (omega arith) (leb→le _ _ long) in
            let parts : length (c ∷ text) ≡ 1024 + length r.rest =
              ap (λ (v : List ℕ). length v) r.same
              ∙ (length-append (bytes m (1024 * b) 1024) r.rest
                  ∙ omega (arith, length-bytes m (1024 * b) 1024)) in
            let left : length (c ∷ text) - 1024 ≡ length r.rest = omega arith in
            let ends : IsText r.rest =
              IsText-append (bytes m (1024 * b) 1024) r.rest (subst IsText r.same t) in
            read_loop-long fuel m b (length (c ∷ text)) (leb→le _ _ long)
              (λ e. ground (arith, r.linked, r.low))
            ∙ (ap₂ (λ (d n : ℕ). print_before (bytes m (1024 * b) 1024) (read_loop fuel m d n))
                  r.linked left
                ∙ (ap (print_before (bytes m (1024 * b) 1024))
                      (read_loop-Stored fuel r.rest r.stored ends (omega arith))
                    ∙ ap (λ (v : List ℕ). some (0, v)) (sym r.same)))
        | inr short ↦
            read_loop-short fuel m b (length (c ∷ text)) (omega arith) (ground arith)
            ∙ ap (λ (v : List ℕ). some (0, v))
                (read_str-Stored (1024 * b) s (omega arith) (ground arith) t)
      ]
