-- ===== src/FileSystem/Delete/Tree.antt =====
-- The tree of files below a directory of exam5/File_System/main.cpp, with all blocks that it is on.
use hdu_os_experiment.Common.{
  ℕ, zero, suc, ◌+◌, ◌*◌, ◌/◌, ◌≤◌, ◌<◌, ◌≡◌, ◌≢◌, ◌⊎◌, refl, arith, true, false, ◌||◌, List, [],
  ◌∷◌, ◌++◌, has, length, length-append, Distinct, ◌∙◌, sym, ap,
}
use hdu_os_experiment.Memory.{Mem}
use hdu_os_experiment.Memory.Laws.{Outside}
use hdu_os_experiment.FileSystem.Fcb
use hdu_os_experiment.FileSystem.Fcb.{judge_dir}
use hdu_os_experiment.FileSystem.Fcb.Fields.{
  SameButAttr, in_use_ext, s_block_ext, len_ext, judge_dir_ext,
}
use hdu_os_experiment.FileSystem.Fat.{get_block_ptr, next_num}
use hdu_os_experiment.FileSystem.Fat.Chain.{Chain, Chain-frame}
use hdu_os_experiment.FileSystem.Dir.{entry}
use hdu_os_experiment.FileSystem.Dir.Used.{used}

-- The FCB at `p` is that of a directory whose length counts its entries, on the first of the blocks;
-- the files below it are on the others. No directory is on block 128, whose last two bytes are lost
-- when blocks are given back. The last number is enough for the rounds of the walk.
mutual
  pub data DirTree (m : Mem) : ℕ → List ℕ → ℕ → Type 0 where
    tree :
        {p b n : ℕ} {bs : List ℕ}
        → Fcb.s_block m p ≡ b
        → 5 ≤ b
        → b ≢ 128
        → used 30 m (get_block_ptr b) 2 ≡ Fcb.len m p / 32
        → Entries m b 30 2 bs n
        → DirTree m p (b ∷ bs) (suc n)

  -- The entries in use among the `left` ones from `i` on, in block `b`.
  pub data Entries (m : Mem) : ℕ → ℕ → ℕ → List ℕ → ℕ → Type 0 where
    no_entry : {b i : ℕ} → Entries m b zero i [] 1
    unused :
        {b left i n : ℕ} {bs : List ℕ}
        → Fcb.in_use m (entry (get_block_ptr b) i) ≡ 0
        → Entries m b left (i + 1) bs n
        → Entries m b (suc left) i bs (suc n)
    file :
        {b left i n : ℕ} {cs bs : List ℕ}
        → Fcb.in_use m (entry (get_block_ptr b) i) ≢ 0
        → judge_dir m (entry (get_block_ptr b) i) ≡ false
        → Chain m (Fcb.s_block m (entry (get_block_ptr b) i)) cs
        → Entries m b left (i + 1) bs n
        → Entries m b (suc left) i (cs ++ bs) (suc (length cs + n))
    folder :
        {b left i k n : ℕ} {cs bs : List ℕ}
        → Fcb.in_use m (entry (get_block_ptr b) i) ≢ 0
        → judge_dir m (entry (get_block_ptr b) i) ≡ true
        → DirTree m (entry (get_block_ptr b) i) cs k
        → Entries m b left (i + 1) bs n
        → Entries m b (suc left) i (cs ++ bs) (suc (k + n))

pub has-append : (j : ℕ) (xs ys : List ℕ) → has j (xs ++ ys) ≡ (has j xs || has j ys)
has-append j [] ys = refl
has-append j (x ∷ xs) ys = ground (arith, has-append j xs ys)

-- The parts of a list of distinct numbers.
pub Distinct-left : (n : ℕ) (xs ys : List ℕ) → Distinct n (xs ++ ys) → Distinct n xs
Distinct-left n [] ys d = tt
Distinct-left n (x ∷ xs) ys d = ground (arith, has-append x xs ys, Distinct-left n xs ys)

pub Distinct-right : (n : ℕ) (xs ys : List ℕ) → Distinct n (xs ++ ys) → Distinct n ys
Distinct-right n [] ys d = d
Distinct-right n (x ∷ xs) ys d = Distinct-right n xs ys d.2

pub Distinct-apart :
    (n j : ℕ) (xs ys : List ℕ) → Distinct n (xs ++ ys) → has j ys ≡ true → has j xs ≡ false
Distinct-apart n j [] ys d h = refl
Distinct-apart n j (x ∷ xs) ys d h = ground (arith, has-append x xs ys, Distinct-apart n j xs ys)

pub Distinct-lt : (n j : ℕ) (xs : List ℕ) → Distinct n xs → has j xs ≡ true → j < n
Distinct-lt n j [] d h = cc
Distinct-lt n j (x ∷ xs) d h = ground (arith, Distinct-lt n j xs)

-- The walk needs at most 33 rounds a block.
mutual
  pub DirTree-rounds : {m : Mem} {p n : ℕ} {bs : List ℕ} → DirTree m p bs n → n ≤ 33 * length bs
  DirTree-rounds (tree e lo ne c t) = omega (arith, Entries-rounds t)

  Entries-rounds :
      {m : Mem} {b left i n : ℕ} {bs : List ℕ}
      → Entries m b left i bs n
      → n ≤ 33 * length bs + left + 1
  Entries-rounds no_entry = omega arith
  Entries-rounds (unused e t) = omega (arith, Entries-rounds t)
  Entries-rounds (file {cs = cs} {bs = bs} u d c t) =
      omega (arith, Entries-rounds t, length-append cs bs)
  Entries-rounds (folder {cs = cs} {bs = bs} u d s t) =
      omega (arith, DirTree-rounds s, Entries-rounds t, length-append cs bs)

-- With no entry in use there are no blocks.
pub Entries-empty :
    {m : Mem} {b left i n : ℕ} {bs : List ℕ}
    → Entries m b left i bs n
    → used left m (get_block_ptr b) i ≡ 0
    → bs ≡ []
Entries-empty no_entry h = refl
Entries-empty (unused e t) h = Entries-empty t (ground arith)
Entries-empty (file u d c t) h = absurd (ground arith)
Entries-empty (folder u d s t) h = absurd (ground arith)

pub Entries-unused :
    (m : Mem) (b left i : ℕ)
    → used left m (get_block_ptr b) i ≡ 0
    → Entries m b left i [] (suc left)
Entries-unused m b zero i h = no_entry
Entries-unused m b (suc left) i h =
    unused (ground arith) (Entries-unused m b left (i + 1) (ground arith))

-- Two memories that agree from the first directory on, but for the last two bytes of block 128.
abbrev pub Same : Mem → Mem → Type 0
Same m m' = (a : ℕ) → 5120 ≤ a → Outside a 132094 2 → m' a ≡ m a

-- An FCB whose bytes are among those.
abbrev pub Apart : ℕ → Type 0
Apart p = (5120 ≤ p) × ((p + 32 ≤ 132094) ⊎ (132096 ≤ p))

pub Apart-entry : (b i : ℕ) → 5 ≤ b → b ≢ 128 → i < 32 → Apart (entry (get_block_ptr b) i)
Apart-entry b i lo ne h = ground arith

module _ (m m' : Mem) (same : Same m m') where
  same_fcb : (p : ℕ) → Apart p → (a : ℕ) → p ≤ a → a < p + 32 → m' a ≡ m a
  same_fcb p h a lo hi = same a (omega (arith, h.0)) (ground arith)

  fcb : (p : ℕ) → Apart p → SameButAttr m' m p
  fcb p h a lo hi ne = same_fcb p h a lo hi

  entry_fcb : (b i : ℕ) → 5 ≤ b → b ≢ 128 → i < 32 → SameButAttr m' m (entry (get_block_ptr b) i)
  entry_fcb b i lo ne h = fcb _ (Apart-entry b i lo ne h)

  entry-judge_dir :
      (b i : ℕ)
      → 5 ≤ b
      → b ≢ 128
      → i < 32
      → judge_dir m' (entry (get_block_ptr b) i) ≡ judge_dir m (entry (get_block_ptr b) i)
  entry-judge_dir b i lo ne h =
      judge_dir_ext m' m _ (same_fcb _ (Apart-entry b i lo ne h) _ (omega arith) (omega arith))

  pub used-Same :
      (left b i : ℕ)
      → 5 ≤ b
      → b ≢ 128
      → i + left ≤ 32
      → used left m' (get_block_ptr b) i ≡ used left m (get_block_ptr b) i
  used-Same zero b i lo ne h = refl
  used-Same (suc left) b i lo ne h =
      rw
        (
          in_use_ext m' m _ (entry_fcb b i lo ne (omega arith)),
          used-Same left b (i + 1) lo ne (omega arith),
        )
        refl

  mutual
    pub DirTree-frame :
        {p n : ℕ} {bs : List ℕ}
        → Apart p
        → ((j : ℕ) → has j bs ≡ true → next_num m' j ≡ next_num m j)
        → DirTree m p bs n
        → DirTree m' p bs n
    DirTree-frame {p = p} h f (tree {b = b} e lo ne c t) =
        tree (s_block_ext m' m p (fcb p h) ∙ e) lo ne
          (used-Same 30 b 2 lo ne (omega arith)
            ∙ c
            ∙ ap (λ l. l / 32) (sym (len_ext m' m p (fcb p h))))
          (Entries-frame lo ne (omega arith) (λ j i. f j (ground arith)) t)

    pub Entries-frame :
        {b left i n : ℕ} {bs : List ℕ}
        → 5 ≤ b
        → b ≢ 128
        → i + left ≤ 32
        → ((j : ℕ) → has j bs ≡ true → next_num m' j ≡ next_num m j)
        → Entries m b left i bs n
        → Entries m' b left i bs n
    Entries-frame lo ne h f no_entry = no_entry
    Entries-frame {b = b} {i = i} lo ne h f (unused e t) =
        unused (in_use_ext m' m _ (entry_fcb b i lo ne (omega arith)) ∙ e)
          (Entries-frame lo ne (omega arith) f t)
    Entries-frame {b = b} {i = i} lo ne h f (file {cs = cs} {bs = bs} u d c t) =
        file (λ z. u (sym (in_use_ext m' m _ (entry_fcb b i lo ne (omega arith))) ∙ z))
          (entry-judge_dir b i lo ne (omega arith) ∙ d)
          (rw (s_block_ext m' m _ (entry_fcb b i lo ne (omega arith)))
            (Chain-frame c λ j i. f j (ground (arith, has-append j cs bs))))
          (Entries-frame lo ne (omega arith) (λ j i. f j (ground (arith, has-append j cs bs))) t)
    Entries-frame {b = b} {i = i} lo ne h f (folder {cs = cs} {bs = bs} u d s t) =
        folder (λ z. u (sym (in_use_ext m' m _ (entry_fcb b i lo ne (omega arith))) ∙ z))
          (entry-judge_dir b i lo ne (omega arith) ∙ d)
          (DirTree-frame (Apart-entry b i lo ne (omega arith))
            (λ j i. f j (ground (arith, has-append j cs bs))) s)
          (Entries-frame lo ne (omega arith) (λ j i. f j (ground (arith, has-append j cs bs))) t)
