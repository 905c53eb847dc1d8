-- ===== src/FileSystem/Write/Position.antt =====
-- The first loop of `do_write` walks to the block of the file pointer.
use hdu_os_experiment.Common.{
  ℕ, zero, suc, ◌+◌, ◌-◌, ◌*◌, ◌<◌, ◌≡◌, List, arith, length, get_or, has, ne→==, lt→ltb, false,
}
use hdu_os_experiment.Memory.{Mem}
use hdu_os_experiment.FileSystem.Fat.{end_mark}
use hdu_os_experiment.FileSystem.Fat.Chain.{Chain, last, link, Chain-lt}
use hdu_os_experiment.FileSystem.Write.{at, seek}
use hdu_os_experiment.FileSystem.Write.Advance.{AboveTables}

-- A suffix of the chain that begins at block `b`, and all of whose blocks are in `bs`.
pub record Rest (m : Mem) (bs : List ℕ) (b : ℕ) : Type 0 where
  pub cs : List ℕ
  pub chain : Chain m b cs
  pub above : AboveTables bs → AboveTables cs
  pub others : (x : ℕ) → has x bs ≡ false → has x cs ≡ false

-- On a chain with more than `k` blocks, the loop stops at block number `k` and offset `r` for
-- the file pointer `1024 * k + r`.
pub seek-at :
    (fuel k r offset : ℕ) (m : Mem) {b : ℕ} {bs : List ℕ}
    → Chain m b bs
    → offset ≡ 1024 * k + r
    → r < 1024
    → k < length bs
    → offset < fuel
    → (seek fuel m b offset ≡ at (get_or bs k 0) r) × Rest m bs (get_or bs k 0)
unfolding seek
seek-at zero k r offset m c e h1 h2 f = absurd (omega arith)
seek-at (suc fuel) zero r offset m (last h e') e h1 h2 f =
    (ground arith, record { cs = _; chain = last h e'; above = λ a. a; others = λ x o. o })
seek-at (suc fuel) zero r offset m (link h e' out c) e h1 h2 f =
    (ground arith, record { cs = _; chain = link h e' out c; above = λ a. a; others = λ x o. o })
seek-at (suc fuel) (suc k) r offset m (last h e') e h1 h2 f = absurd (omega arith)
seek-at (suc fuel) (suc k) r offset m (link {c = d} h e' out c) e h1 h2 f =
    let rest = seek-at fuel k r (offset - 1024) m c (omega arith) h1 (omega arith) (omega arith) in
    (
      rw (lt→ltb 1023 offset (omega arith), e', ne→== d end_mark (ground (arith, Chain-lt c)))
          rest.0,
      record {
        cs = rest.1.cs;
        chain = rest.1.chain;
        above = λ a. rest.1.above a.1;
        others = λ x o. rest.1.others x (ground arith);
      },
    )
