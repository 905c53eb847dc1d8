-- ===== src/Common/Pigeonhole.antt =====
-- A list of distinct numbers below `n` has at most `n` of them.
use Prim.Native.Nat.{ℕ, zero, suc, ◌+◌, ◌≤◌, ◌<◌}
use mathlib.Core.Path.{◌≡◌, refl}
use mathlib.Core.Bool.{false}
use mathlib.Core.List.{List, [], ◌∷◌}
use native.Mathlib.Omega.{arith}
use hdu_os_experiment.Common.Tests.{◌==◌, if◌then◌else◌}
use hdu_os_experiment.Common.Lists.{length, has}

abbrev pub Distinct : ℕ → List ℕ → Type 0
Distinct n [] = Unit {0}
Distinct n (x ∷ xs) = (x < n) × (has x xs ≡ false) × Distinct n xs

without : ℕ → List ℕ → List ℕ
without a [] = []
without a (x ∷ xs) = if a == x then without a xs else x ∷ without a xs

has-without : (a b : ℕ) (xs : List ℕ) → has b xs ≡ false → has b (without a xs) ≡ false
unfolding without
has-without a b [] h = refl
has-without a b (x ∷ xs) h = ground (arith, has-without a b xs)

length-without_absent : (a : ℕ) (xs : List ℕ) → has a xs ≡ false → length (without a xs) ≡ length xs
unfolding without
length-without_absent a [] h = refl
length-without_absent a (x ∷ xs) h = ground (arith, length-without_absent a xs)

length-le-without : (n a : ℕ) (xs : List ℕ) → Distinct n xs → length xs ≤ length (without a xs) + 1
unfolding without
length-le-without n a [] h = omega arith
length-le-without n a (x ∷ xs) h =
    ground (arith, length-without_absent a xs, length-le-without n a xs)

Distinct-without : (n : ℕ) (xs : List ℕ) → Distinct (suc n) xs → Distinct n (without n xs)
unfolding without
Distinct-without n [] h = tt
Distinct-without n (x ∷ xs) h = ground (arith, has-without n x xs, Distinct-without n xs)

pub length-Distinct : (n : ℕ) (xs : List ℕ) → Distinct n xs → length xs ≤ n
length-Distinct zero [] h = omega arith
length-Distinct zero (x ∷ xs) h = absurd (omega arith)
length-Distinct (suc n) xs h = omega (
  arith,
  length-le-without (suc n) n xs h,
  length-Distinct n (without n xs) (Distinct-without n xs h),
)
