-- ===== src/FileSystem/Write/Cut.antt =====
-- The loop of `do_write` that cuts the chain behind the last block written to: every entry of the
-- rest of the chain becomes the end mark, and none becomes free.
use hdu_os_experiment.Common.{
  ℕ, zero, suc, ◌≤◌, ◌<◌, ◌≡◌, ◌⊎◌, List, arith, refl, has, length, some, if◌then◌else◌, ne→==,
}
use hdu_os_experiment.Memory.{Mem}
use hdu_os_experiment.FileSystem.Fat.{next_num, set_next, end_mark}
use hdu_os_experiment.FileSystem.Fat.Entry.{next_num-set_next, set_next_out}
use hdu_os_experiment.FileSystem.Fat.Chain.{Chain, last, link, Chain-lt, Chain-frame}
use hdu_os_experiment.FileSystem.Write.{cut_chain}

pub record Cut (m m' : Mem) (ls : List ℕ) : Type 0 where
  pub entries : (j : ℕ) → next_num m' j ≡ (if has j ls then end_mark else next_num m j)
  pub others : (a : ℕ) → (a < 1024) ⊎ (3072 ≤ a) → m' a ≡ m a

-- On a chain that the fuel covers the loop ends: every entry of the chain becomes the end mark,
-- the other entries keep their value, and no byte outside the addresses from 1024 to 3071 changes.
pub cut_chain-Cut :
    (fuel : ℕ) (m : Mem) {l : ℕ} {ls : List ℕ}
    → Chain m l ls
    → length ls ≤ fuel
    → (m' : Mem) × (cut_chain fuel m l ≡ some m') × Cut m m' ls
unfolding cut_chain
cut_chain-Cut zero m (last h e) f = absurd (omega arith)
cut_chain-Cut zero m (link h e out c) f = absurd (omega arith)
cut_chain-Cut (suc fuel) m (last {b} h e) f =
    (m, rw e refl, record { entries = λ j. ground arith; others = λ a o. refl })
cut_chain-Cut (suc fuel) m (link {b} {c} {bs} h e out chain) f =
    let m1 = set_next m b end_mark in
    let kept : Chain m1 c bs =
      Chain-frame chain λ j i. ground (arith, next_num-set_next m b end_mark j) in
    let (m', run, cut) = cut_chain-Cut fuel m1 kept (omega arith) in
    (
      m',
      rw (e, ne→== c end_mark (ground (arith, Chain-lt chain))) run,
      record {
        entries = λ j. ground (arith, cut.entries j, next_num-set_next m b end_mark j);
        others = λ a o. ground (arith, cut.others a, set_next_out m b end_mark a);
      },
    )
