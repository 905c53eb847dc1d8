-- ===== src/FileSystem/Fat/Delete.antt =====
-- `deleteFileAtFat` gives back the blocks of a chain.
use hdu_os_experiment.Common.{
  ℕ, zero, suc, ◌⊎◌, ◌≤◌, ◌<◌, ◌≡◌, refl, arith, List, has, length, if◌then◌else◌, ◌==◌, some,
  ne→==,
}
use hdu_os_experiment.Memory.{Mem}
use hdu_os_experiment.Memory.Laws.{Outside}
use hdu_os_experiment.FileSystem.Fat.{next_num, set_next, delete_file_at_fat, end_mark, free_mark}
use hdu_os_experiment.FileSystem.Fat.Entry.{next_num-set_next, set_next_out}
use hdu_os_experiment.FileSystem.Fat.Chain.{Chain, last, link, Chain-lt, Chain-frame}

-- What the walk leaves in memory `m'`: the entries of `bs` are free, and so is the entry of index
-- 65535, which lies in the data area; no other entry has changed.
pub record Freed (m m' : Mem) (bs : List ℕ) : Type 0 where
  pub entries :
      (j : ℕ)
      → next_num m' j
        ≡ (if j == end_mark then free_mark else if has j bs then free_mark else next_num m j)
  -- Nothing else in memory has changed but the last two bytes of block 128.
  pub others : (a : ℕ) → (a < 1024) ⊎ (3072 ≤ a) → Outside a 132094 2 → m' a ≡ m a

-- On a chain that the fuel covers the walk ends, and frees exactly the blocks of the chain. It also
-- writes the free mark into the entry of index 65535, past the table.
pub delete_file_at_fat-Freed :
    (fuel : ℕ) (m : Mem) {b : ℕ} {bs : List ℕ}
    → Chain m b bs
    → length bs ≤ fuel
    → (m' : Mem) × (delete_file_at_fat fuel m b ≡ some m') × Freed m m' bs
unfolding delete_file_at_fat
delete_file_at_fat-Freed zero m (last h e) f = absurd (omega arith)
delete_file_at_fat-Freed zero m (link h e out c) f = absurd (omega arith)
delete_file_at_fat-Freed (suc fuel) m (last {b} h e) f = (
  set_next (set_next m b free_mark) end_mark free_mark,
  rw (e) refl,
  record {
    entries = λ j. ground (
      arith,
      next_num-set_next (set_next m b free_mark) end_mark free_mark j,
      next_num-set_next m b free_mark j,
    );
    others = λ a h1 h2. ground (
      arith,
      set_next_out (set_next m b free_mark) end_mark free_mark a,
      set_next_out m b free_mark a,
    );
  },
)
delete_file_at_fat-Freed (suc fuel) m (link {b} {c} {bs} h e out chain) f =
    let m1 = set_next m b free_mark in
    let kept : Chain m1 c bs =
      Chain-frame chain λ j i. ground (arith, next_num-set_next m b free_mark j) in
    let (m', run, freed) = delete_file_at_fat-Freed fuel m1 kept (omega arith) in
    (
      m',
      rw (e, ne→== c end_mark (ground (arith, Chain-lt chain))) run,
      record {
        entries = λ j. ground (arith, freed.entries j, next_num-set_next m b free_mark j);
        others = λ a h1 h2. ground (arith, freed.others a, set_next_out m b free_mark a);
      },
    )
