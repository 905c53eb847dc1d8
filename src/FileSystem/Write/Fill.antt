-- ===== src/FileSystem/Write/Fill.antt =====
-- One block filled with bytes.
use hdu_os_experiment.Common.{
  ℕ, ◌+◌, ◌*◌, ◌≤◌, ◌<◌, ◌≡◌, ◌⊎◌, List, [], ◌∷◌, arith, refl, inl, inr, Bool-cases, ltb, length,
  ltb→lt, ◌∙◌,
}
use hdu_os_experiment.Memory.{Mem, put}
use hdu_os_experiment.Memory.Laws.{put_ne, put_self}
use hdu_os_experiment.FileSystem.Fat.{get_block_ptr}
use hdu_os_experiment.FileSystem.Write.{fill}
use hdu_os_experiment.FileSystem.Write.Stored.{Away, Stored, byte}

-- The characters of a text are bytes.
abbrev pub AreBytes : List ℕ → Type 0
AreBytes [] = Unit {0}
AreBytes (c ∷ text) = (c < 256) × AreBytes text

-- The result of `fill` of block `b` at `off`: the bytes stored lie between `off` and the new offset,
-- and bytes are left only when the block is full.
pub record Filled (m : Mem) (z b off : ℕ) (text : List ℕ) (r : Mem × ℕ × List ℕ) : Type 0 where
  pub up : off ≤ r.1
  pub in_block : r.1 ≤ 1024
  pub all_or_full : (r.2 ≡ []) ⊎ (r.1 ≡ 1024)
  pub counts : r.1 + length r.2 ≡ off + length text
  pub elsewhere : (a : ℕ) → (a < 1024 * b + off) ⊎ (1024 * b + r.1 ≤ a) → r.0 a ≡ m a
  pub bytes_left : AreBytes r.2
  pub stores :
      (m' : Mem) (l : ℕ) (ls : List ℕ)
      → ((a : ℕ) → 1024 * b + off ≤ a → a < 1024 * b + r.1 → m' a ≡ r.0 a)
      → Stored m' z l ls b r.1 r.2
      → Stored m' z l ls b off text

Filled-full :
    (m : Mem) (z b off : ℕ) (text : List ℕ)
    → off ≡ 1024
    → AreBytes text
    → Filled m z b off text (m, off, text)
Filled-full m z b off text full bytes = record {
  up = omega arith;
  in_block = omega arith;
  all_or_full = inr full;
  counts = refl;
  elsewhere = λ a h. refl;
  bytes_left = bytes;
  stores = λ m' l ls same s. s;
}

Filled-cons :
    (m : Mem) (z b off c : ℕ) (text : List ℕ) (r : Mem × ℕ × List ℕ)
    → off < 1024
    → Away z b
    → c < 256
    → Filled (put m (1024 * b + off) c) z b (off + 1) text r
    → Filled m z b off (c ∷ text) r
Filled-cons m z b off c text r low ne small rest = record {
  up = omega (arith, rest.up);
  in_block = rest.in_block;
  all_or_full = rest.all_or_full;
  counts = omega (arith, rest.counts);
  elsewhere = λ a h.
      rest.elsewhere a (ground (arith, rest.up))
      ∙ put_ne m (1024 * b + off) c a (ground (arith, rest.up));
  bytes_left = rest.bytes_left;
  stores = λ m' l ls same s.
      byte low ne
        (same (1024 * b + off) (omega arith) (omega (arith, rest.up))
          ∙ (rest.elsewhere (1024 * b + off) (inl (omega arith))
              ∙ (put_self m (1024 * b + off) c ∙ omega arith)))
        (rest.stores m' l ls (λ a lo hi. same a (omega arith) hi) s);
}

pub fill-Filled :
    (text : List ℕ) (m : Mem) (z b off : ℕ)
    → Away z b
    → off ≤ 1024
    → AreBytes text
    → Filled m z b off text (fill m (get_block_ptr b) off text)
unfolding fill
fill-Filled [] m z b off ne h bytes = record {
  up = omega arith;
  in_block = h;
  all_or_full = inl refl;
  counts = refl;
  elsewhere = λ a h. refl;
  bytes_left = tt;
  stores = λ m' l ls same s. s;
}
fill-Filled (c ∷ text) m z b off ne h bytes = elim (Bool-cases (ltb off 1024)) [
  | inl low ↦ rw low (
      Filled-cons m z b off c text _ (ltb→lt _ _ low) ne bytes.0
        (fill-Filled text (put m (1024 * b + off) c) z b (off + 1) ne (ground arith) bytes.1))
  | inr full ↦ rw full (Filled-full m z b off (c ∷ text) (ground arith) bytes)
]
