-- ===== src/Memory/Text.antt =====
-- Texts in memory: what `strcpy` stores, a bounded read gives back.
use hdu_os_experiment.Common.{
  ℕ, zero, suc, ◌+◌, ◌≤◌, ◌<◌, ◌≡◌, refl, ap, arith, List, [], ◌∷◌, ◌↔◌, true, length, ◌∙◌,
}
use hdu_os_experiment.Memory.{Mem, put, strcpy, read_str, str_eq}
use hdu_os_experiment.Memory.Laws.{Outside, put_ne, put_self}

-- Every character of a C text is a byte other than NUL.
abbrev pub IsText : List ℕ → Type 0
IsText [] = Unit {0}
IsText (c ∷ cs) = (0 < c) × (c < 256) × IsText cs

pub strcpy_out :
    (m : Mem) (p : ℕ) (cs : List ℕ) (a : ℕ) → Outside a p (length cs + 1) → strcpy m p cs a ≡ m a
unfolding strcpy
strcpy_out m p [] a h = put_ne m p 0 a (omega arith)
strcpy_out m p (c ∷ cs) a h =
    strcpy_out (put m p c) (p + 1) cs a (ground arith) ∙ put_ne m p c a (omega arith)

pub strcpy_end : (m : Mem) (p : ℕ) (cs : List ℕ) → strcpy m p cs (p + length cs) ≡ 0
unfolding strcpy
strcpy_end m p [] = ground (arith, put_self m p 0)
strcpy_end m p (c ∷ cs) =
    ap (strcpy (put m p c) (p + 1) cs) (omega arith) ∙ strcpy_end (put m p c) (p + 1) cs

strcpy_head : (m : Mem) (p c : ℕ) (cs : List ℕ) → c < 256 → strcpy (put m p c) (p + 1) cs p ≡ c
strcpy_head m p c cs h =
    strcpy_out (put m p c) (p + 1) cs p (omega arith) ∙ (put_self m p c ∙ omega arith)

-- A bounded read sees only its bytes.
pub read_str_ext :
    (m m' : Mem) (p n : ℕ)
    → ((i : ℕ) → i < n → m (p + i) ≡ m' (p + i))
    → read_str m p n ≡ read_str m' p n
unfolding read_str
read_str_ext m m' p zero h = refl
read_str_ext m m' p (suc n) h =
    let here : m p ≡ m' p = ap m (omega arith) ∙ (h 0 (omega arith) ∙ ap m' (omega arith)) in
    let there =
      read_str_ext m m' (p + 1) n
        λ i lt. ap m (omega arith) ∙ (h (suc i) (omega arith) ∙ ap m' (omega arith)) in
    rw (here, there)

-- A text that fits the field, with or without room for its NUL, is read back whole.
pub read_str-strcpy :
    (m : Mem) (p n : ℕ) (cs : List ℕ)
    → IsText cs
    → length cs ≤ n
    → read_str (strcpy m p cs) p n ≡ cs
unfolding read_str strcpy
read_str-strcpy m p zero [] t h = refl
read_str-strcpy m p zero (c ∷ cs) t h = elim h [ ]
read_str-strcpy m p (suc n) [] t h = rw (put_self m p 0)
read_str-strcpy m p (suc n) (c ∷ cs) t h =
    ground (arith, strcpy_head m p c cs, read_str-strcpy (put m p c) (p + 1) n cs)

pub str_eq_iff : (s t : List ℕ) → (str_eq s t ≡ true) ↔ (s ≡ t)
unfolding str_eq
str_eq_iff [] [] = (λ _. refl, λ _. refl)
str_eq_iff [] (d ∷ ds) = ground arith
str_eq_iff (c ∷ cs) [] = ground arith
str_eq_iff (c ∷ cs) (d ∷ ds) = ground (arith, str_eq_iff cs ds)
