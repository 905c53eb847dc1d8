-- ===== src/FileSystem/Write/Advance.antt =====
-- The step of `do_write` from a full block to the next.
use hdu_os_experiment.Common.{
  ℕ, ◌%◌, ◌≤◌, ◌<◌, ◌≡◌, ◌≢◌, List, [], ◌∷◌, arith, refl, inl, inr, Bool-cases, has, false, Option,
  none, some, ◌==◌, ==→eq, if◌then◌else◌, ne→==, ◌∙◌,
}
use hdu_os_experiment.Memory.{Mem}
use hdu_os_experiment.FileSystem.Fat.{next_num, set_next, get_next_vhd_block, end_mark, free_mark}
use hdu_os_experiment.FileSystem.Fat.Entry.{next_num-set_next, set_next_out}
use hdu_os_experiment.FileSystem.Fat.Chain.{Chain, last, link, Chain-lt}
use hdu_os_experiment.FileSystem.Fat.Next.{get_next_vhd_block_lem}
use hdu_os_experiment.FileSystem.Write.{advance}

-- Blocks that lie behind the two tables.
abbrev pub AboveTables : List ℕ → Type 0
AboveTables [] = Unit {0}
AboveTables (b ∷ bs) = (5 ≤ b) × AboveTables bs

-- A block in use that is not among `bs`.
pub record IsOther (m : Mem) (bs : List ℕ) (x : ℕ) : Type 0 where
  pub low : 5 ≤ x
  pub high : x < 1024
  pub out : has x bs ≡ false
  pub taken : next_num m x ≢ free_mark

-- The chain `ds` from `d` on is what follows block `b` in memory `m'`; only entries of `b` and of a
-- free block have changed.
pub record Next (m : Mem) (b : ℕ) (bs : List ℕ) (m' : Mem) (d : ℕ) (ds : List ℕ) : Type 0 where
  pub chain : Chain m' d ds
  pub above : AboveTables ds
  pub out : has b ds ≡ false
  pub linked : next_num m' b ≡ d
  pub entries : (x : ℕ) → x < 1024 → x ≢ b → next_num m x ≢ free_mark → next_num m' x ≡ next_num m x
  pub others : (x : ℕ) → has x bs ≡ false → next_num m x ≢ free_mark → has x ds ≡ false
  pub bytes : (a : ℕ) → 3072 ≤ a → m' a ≡ m a

-- Either the chain goes on, or every block of the data area is in use.
abbrev pub Advanced : Mem → ℕ → List ℕ → Option (Mem × ℕ) → Type 0
Advanced m b bs none = (x : ℕ) → 5 ≤ x → x < 1024 → next_num m x ≢ free_mark
Advanced m b bs (some (m', d)) = (ds : List ℕ) × Next m b bs m' d ds

module _ (m : Mem) (b : ℕ) (h : b < 1024) (e : next_num m b ≡ end_mark) where
  abbrev fresh : ℕ
  fresh = get_next_vhd_block m

  abbrev grown : Mem
  grown = set_next (set_next m b fresh) fresh end_mark

  grown-next :
      (x : ℕ)
      → next_num grown x
        ≡ (if fresh == x then end_mark else if b == x then fresh % 65536 else next_num m x)
  grown-next x = ground (
    arith,
    next_num-set_next (set_next m b fresh) fresh end_mark x,
    next_num-set_next m b fresh x,
  )

  grown-Next : fresh ≢ end_mark → Next m b (b ∷ []) grown fresh (fresh ∷ [])
  grown-Next room =
      let first = get_next_vhd_block_lem m in
      let free : (5 ≤ fresh) × (fresh < 1024) × (next_num m fresh ≡ free_mark) =
        ground (arith, first.free_or_end) in
      record {
        chain = last free.1 (ground (arith, grown-next fresh));
        above = (free.0, tt);
        out = ground (arith, free.2);
        linked = ground (arith, grown-next b, free.1, free.2);
        entries = λ x lt ne used. ground (arith, grown-next x, free.2);
        others = λ x o used. ground (arith, free.2);
        bytes = λ a lo.
            set_next_out (set_next m b fresh) fresh end_mark a (inr (omega (arith, free.1)))
            ∙ set_next_out m b fresh a (inr (omega arith));
      }

  full : fresh ≡ end_mark → Advanced m b (b ∷ []) none
  full e x lo hi = (get_next_vhd_block_lem m).below_taken x lo hi (omega arith)

pub advance-Advanced :
    (m : Mem) (b : ℕ) (bs : List ℕ) → Chain m b bs → AboveTables bs → Advanced m b bs (advance m b)
unfolding advance
advance-Advanced m b bs (last h e) above = elim (Bool-cases (get_next_vhd_block m == end_mark)) [
  | inl none_free ↦ rw (e, none_free) (full m b h e (==→eq _ _ none_free))
  | inr room ↦ rw (e, room) (get_next_vhd_block m ∷ [], grown-Next m b h e (ground arith))
]
advance-Advanced m b bs (link {c} {bs = ds} h e out chain) above =
    rw (e, ne→== c end_mark (ground (arith, Chain-lt chain)))
      (
        ds,
        record {
          chain = chain;
          above = above.1;
          out = out;
          linked = e;
          entries = λ x lt ne used. refl;
          others = λ x o used. ground arith;
          bytes = λ a lo. refl;
        },
      )
