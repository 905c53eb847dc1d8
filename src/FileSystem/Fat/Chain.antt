-- ===== src/FileSystem/Fat/Chain.antt =====
-- The chain of blocks that the file allocation table holds for a file.
use hdu_os_experiment.Common.{
  ℕ, ◌≤◌, ◌<◌, ◌≡◌, refl, arith, List, [], ◌∷◌, has, false, true, length, Distinct, length-Distinct,
}
use hdu_os_experiment.Memory.{Mem}
use hdu_os_experiment.FileSystem.Fat.{next_num, end_mark, vd_block_num}

-- From block `b` the entries lead through the distinct blocks `bs` to the end mark.
pub data Chain (m : Mem) : ℕ → List ℕ → Type 0 where
  last : {b : ℕ} → b < vd_block_num → next_num m b ≡ end_mark → Chain m b (b ∷ [])
  link :
      {b c : ℕ} {bs : List ℕ}
      → b < vd_block_num
      → next_num m b ≡ c
      → has b bs ≡ false
      → Chain m c bs
      → Chain m b (b ∷ bs)

pub Chain-lt : {m : Mem} {b : ℕ} {bs : List ℕ} → Chain m b bs → b < vd_block_num
Chain-lt (last h e) = h
Chain-lt (link h e out c) = h

-- A chain survives any change that spares the entries of its own blocks.
pub Chain-frame :
    {m m' : Mem} {b : ℕ} {bs : List ℕ}
    → Chain m b bs
    → ((j : ℕ) → has j bs ≡ true → next_num m' j ≡ next_num m j)
    → Chain m' b bs
Chain-frame (last {b} h e) same = last h (ground (arith, same b))
Chain-frame (link {b} h e out c) same =
    link h (ground (arith, same b)) out (Chain-frame c λ j i. same j (ground arith))

Chain-Distinct : {m : Mem} {b : ℕ} {bs : List ℕ} → Chain m b bs → Distinct vd_block_num bs
Chain-Distinct (last h e) = (h, refl, tt)
Chain-Distinct (link h e out c) = (h, out, Chain-Distinct c)

-- A chain is no longer than the disk has blocks.
pub Chain-length : {m : Mem} {b : ℕ} {bs : List ℕ} → Chain m b bs → length bs ≤ vd_block_num
Chain-length {bs} c = length-Distinct vd_block_num bs (Chain-Distinct c)

pub Chain-mem-lt :
    {m : Mem} {b : ℕ} {bs : List ℕ} → Chain m b bs → (j : ℕ) → has j bs ≡ true → j < vd_block_num
Chain-mem-lt (last h e) j i = ground arith
Chain-mem-lt (link h e out c) j i = ground (arith, Chain-mem-lt c j)
