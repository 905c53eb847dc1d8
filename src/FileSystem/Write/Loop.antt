-- ===== src/FileSystem/Write/Loop.antt =====
-- The outer loop of `do_write`: it ends, stores the text along the chain, and touches no block
-- that is in use elsewhere.
use hdu_os_experiment.Common.{
  ℕ, zero, suc, ◌+◌, ◌*◌, ◌≤◌, ◌<◌, ◌≡◌, ◌≢◌, List, [], ◌∷◌, arith, refl, inl, inr, Bool-cases, has,
  false, true, Option, none, some, ◌==◌, ==→eq, length, ◌∙◌,
}
use hdu_os_experiment.Memory.{Mem}
use hdu_os_experiment.FileSystem.Fat.{next_num, free_mark, get_block_ptr}
use hdu_os_experiment.FileSystem.Fat.Chain.{Chain, last, link, Chain-lt, Chain-frame, Chain-mem-lt}
use hdu_os_experiment.FileSystem.Fat.Mirror.{next_num_ext}
use hdu_os_experiment.FileSystem.Write.{Writing, written, disk_full, fill, advance, write_loop}
use hdu_os_experiment.FileSystem.Write.Stored.{Stored, stop, next}
use hdu_os_experiment.FileSystem.Write.Fill.{AreBytes, Filled, fill-Filled}
use hdu_os_experiment.FileSystem.Write.Advance.{
  AboveTables, IsOther, Next, Advanced, advance-Advanced,
}

-- What a write from offset `off` of block `b` with chain `bs` leaves alone.
pub record Spares (m : Mem) (b off : ℕ) (bs : List ℕ) (m' : Mem) : Type 0 where
  pub blocks : (x a : ℕ) → IsOther m bs x → 1024 * x ≤ a → a < 1024 * x + 1024 → m' a ≡ m a
  pub entries : (x : ℕ) → IsOther m bs x → next_num m' x ≡ next_num m x
  pub before : (a : ℕ) → 1024 * b ≤ a → a < 1024 * b + off → m' a ≡ m a

-- The text is stored, up to block `l`, whose chain is `ls`.
pub record Wrote (m : Mem) (z b off : ℕ) (bs : List ℕ) (text : List ℕ) (m' : Mem) (l : ℕ)
    : Type 0 where
  pub ls : List ℕ
  pub chain : Chain m' l ls
  pub above : AboveTables ls
  pub stored : Stored m' z l ls b off text
  pub spares : Spares m b off bs m'
  pub others : (x : ℕ) → IsOther m bs x → has x ls ≡ false

-- The loop does not run out of rounds; it gives up only when no block is free.
abbrev pub Outcome : Mem → ℕ → ℕ → ℕ → List ℕ → List ℕ → Writing → Type 0
Outcome m z b off bs text (written m' l) = Wrote m z b off bs text m' l
Outcome m z b off bs text (disk_full m') =
    Spares m b off bs m' × ((x : ℕ) → 5 ≤ x → x < 1024 → next_num m' x ≢ free_mark)
Outcome m z b off bs text Writing.no_end = ⊥

ne_of_out : {m : Mem} {b : ℕ} {bs : List ℕ} → Chain m b bs → (x : ℕ) → has x bs ≡ false → x ≢ b
ne_of_out (last h e) x o = ground arith
ne_of_out (link h e out c) x o = ground arith

low_of_above : {m : Mem} {b : ℕ} {bs : List ℕ} → Chain m b bs → AboveTables bs → 5 ≤ b
low_of_above (last h e) a = a.0
low_of_above (link h e out c) a = a.0

-- One block of the loop: `r` is what `fill` gave.
module _ (m : Mem) (z b off : ℕ) (bs text : List ℕ) (r : Mem × ℕ × List ℕ)
    (filled : Filled m z b off text r) (chain : Chain m b bs) (above : AboveTables bs)
    (z_other : IsOther m bs z) where
  entries-same : (x : ℕ) → x < 1024 → next_num r.0 x ≡ next_num m x
  entries-same x h =
      next_num_ext m r.0 x h
        λ a lo hi. filled.elsewhere a (inl (omega (arith, low_of_above chain above)))

  block-same : (x a : ℕ) → x ≢ b → 1024 * x ≤ a → a < 1024 * x + 1024 → r.0 a ≡ m a
  block-same x a ne lo hi = filled.elsewhere a (ground (arith, filled.up, filled.in_block))

  IsOther-filled : (x : ℕ) → IsOther m bs x → IsOther r.0 bs x
  IsOther-filled x o = record {
    low = o.low;
    high = o.high;
    out = o.out;
    taken = λ e. o.taken (ground (arith, entries-same x o.high));
  }

  Chain-filled : Chain r.0 b bs
  Chain-filled = Chain-frame chain λ j i. entries-same j (Chain-mem-lt chain j i)

  b-lt : b < 1024
  b-lt = Chain-lt chain

  -- The block is not full: the text ends in it.
  Wrote-part : {m' : Mem} {l : ℕ} → Wrote r.0 z b r.1 bs r.2 m' l → Wrote m z b off bs text m' l
  Wrote-part {m'} {l} w = record {
    ls = w.ls;
    chain = w.chain;
    above = w.above;
    stored = filled.stores m' l w.ls (λ a lo hi. w.spares.before a (omega arith) hi) w.stored;
    spares = Spares-part w.spares;
    others = λ x o. w.others x (IsOther-filled x o);
  }
    where
      Spares-part : Spares r.0 b r.1 bs m' → Spares m b off bs m'
      Spares-part sp = record {
        blocks = λ x a o lo hi.
            sp.blocks x a (IsOther-filled x o) lo hi
            ∙ block-same x a (ne_of_out chain x o.out) lo hi;
        entries = λ x o. sp.entries x (IsOther-filled x o) ∙ entries-same x o.high;
        before = λ a lo hi. sp.before a lo (omega (arith, filled.up)) ∙ filled.elsewhere a (inl hi);
      }

  -- The block is full, and the chain `ds` from `d` on follows it in memory `m2`.
  module _ (full : r.1 ≡ 1024) (m2 : Mem) (d : ℕ) (ds : List ℕ)
      (then_next : Next r.0 b bs m2 d ds) where
    IsOther-next : (x : ℕ) → IsOther m bs x → IsOther m2 ds x
    IsOther-next x o =
        let o1 = IsOther-filled x o in
        record {
          low = o.low;
          high = o.high;
          out = then_next.others x o1.out o1.taken;
          taken = λ e.
              o1.taken
                (ground (arith, then_next.entries x o.high (ne_of_out chain x o.out) o1.taken));
        }

    b-IsOther : IsOther m2 ds b
    b-IsOther = record {
      low = low_of_above chain above;
      high = b-lt;
      out = then_next.out;
      taken = λ e. ground (arith, then_next.linked, Chain-lt then_next.chain);
    }

    Spares-next : {m' : Mem} → Spares m2 d 0 ds m' → Spares m b off bs m'
    Spares-next sp = record {
      blocks = λ x a o lo hi.
          sp.blocks x a (IsOther-next x o) lo hi
          ∙ (then_next.bytes a (omega (arith, o.low))
              ∙ block-same x a (ne_of_out chain x o.out) lo hi);
      entries = λ x o.
          let o1 = IsOther-filled x o in
          sp.entries x (IsOther-next x o)
          ∙ (then_next.entries x o.high (ne_of_out chain x o.out) o1.taken ∙ entries-same x o.high);
      before = λ a lo hi.
          sp.blocks b a b-IsOther lo (omega (arith, filled.up, filled.in_block))
          ∙ (then_next.bytes a (omega (arith, low_of_above chain above))
              ∙ filled.elsewhere a (inl hi));
    }

    Wrote-next : {m' : Mem} {l : ℕ} → Wrote m2 z d 0 ds r.2 m' l → Wrote m z b off bs text m' l
    Wrote-next {m'} {l} w = record {
      ls = w.ls;
      chain = w.chain;
      above = w.above;
      stored =
          filled.stores m' l w.ls
            (λ a lo hi.
              w.spares.blocks b a b-IsOther (omega arith) (omega arith)
              ∙ then_next.bytes a (omega (arith, low_of_above chain above)))
            (next full b-lt (Chain-lt then_next.chain)
              (w.spares.entries b b-IsOther ∙ then_next.linked) (w.others b b-IsOther) w.stored);
      spares = Spares-next w.spares;
      others = λ x o. w.others x (IsOther-next x o);
    }

    Outcome-next : (w : Writing) → Outcome m2 z d 0 ds r.2 w → Outcome m z b off bs text w
    Outcome-next (written m' l) o = Wrote-next o
    Outcome-next (disk_full m') o = (Spares-next o.0, o.1)
    Outcome-next Writing.no_end o = o

  Outcome-part : (w : Writing) → Outcome r.0 z b r.1 bs r.2 w → Outcome m z b off bs text w
  Outcome-part (written m' l) o = Wrote-part o
  Outcome-part (disk_full m') o = (
    record {
      blocks = λ x a o' lo hi.
          o.0.blocks x a (IsOther-filled x o') lo hi
          ∙ block-same x a (ne_of_out chain x o'.out) lo hi;
      entries = λ x o'. o.0.entries x (IsOther-filled x o') ∙ entries-same x o'.high;
      before = λ a lo hi. o.0.before a lo (omega (arith, filled.up)) ∙ filled.elsewhere a (inl hi);
    },
    o.1,
  )
  Outcome-part Writing.no_end o = o

  Spares-filled : Spares m b off bs r.0
  Spares-filled = record {
    blocks = λ x a o lo hi. block-same x a (ne_of_out chain x o.out) lo hi;
    entries = λ x o. entries-same x o.high;
    before = λ a lo hi. filled.elsewhere a (inl hi);
  }

  -- The rest of the loop is correct, by hypothesis.
  module _ (fuel : ℕ)
      (rest : (m2 : Mem) (d off2 : ℕ) (ds : List ℕ)
        → off2 < 1024
        → Chain m2 d ds
        → AboveTables ds
        → IsOther m2 ds z
        → Outcome m2 z d off2 ds r.2 (write_loop fuel m2 d off2 r.2)) where
    after_advance :
        (full : r.1 ≡ 1024) (step : Option (Mem × ℕ))
        → Advanced r.0 b bs step
        → Outcome m z b off bs text
            (elim step [ none ↦ disk_full r.0 | some (m2, d) ↦ write_loop fuel m2 d 0 r.2 ])
    after_advance full none none_free = (Spares-filled, none_free)
    after_advance full (some (m2, d)) (ds, n) =
        Outcome-next full m2 d ds n _
          (rest m2 d 0 ds (omega arith) n.chain n.above (IsOther-next full m2 d ds n z z_other))

    after_fill : Outcome m z b off bs text (elim (r.1 == 1024) [
      | true ↦ elim (advance r.0 b) [
        | none ↦ disk_full r.0
        | some (m2, d) ↦ write_loop fuel m2 d 0 r.2
      ]
      | false ↦ write_loop fuel r.0 b r.1 r.2
    ])
    after_fill = elim (Bool-cases (r.1 == 1024)) [
      | inl full ↦ rw full (
          after_advance (==→eq _ _ full) (advance r.0 b)
            (advance-Advanced r.0 b bs Chain-filled above))
      | inr part ↦ rw part (
          Outcome-part _ (
            rest r.0 b r.1 bs (ground (arith, filled.in_block)) Chain-filled above
              (IsOther-filled z z_other)))
    ]

-- From a block of a chain behind the tables, with more rounds than there are bytes, the loop ends.
pub write_loop-Outcome :
    (fuel : ℕ) (m : Mem) (z b off : ℕ) (bs text : List ℕ)
    → length text < fuel
    → off < 1024
    → AreBytes text
    → Chain m b bs
    → AboveTables bs
    → IsOther m bs z
    → Outcome m z b off bs text (write_loop fuel m b off text)
unfolding write_loop
write_loop-Outcome zero m z b off bs text f lt bytes chain above other = absurd (omega arith)
write_loop-Outcome (suc fuel) m z b off bs [] f lt bytes chain above other = record {
  ls = bs;
  chain = chain;
  above = above;
  stored = stop refl lt;
  spares = record { blocks = λ x a o lo hi. refl; entries = λ x o. refl; before = λ a lo hi. refl };
  others = λ x o. o.out;
}
write_loop-Outcome (suc fuel) m z b off bs (c ∷ text) f lt bytes chain above other =
    let filled =
      fill-Filled (c ∷ text) m z b off
        ((λ e. ne_of_out chain z other.out (ground arith)), low_of_above chain above) (omega arith)
        bytes in
    after_fill m z b off bs (c ∷ text) (fill m (get_block_ptr b) off (c ∷ text)) filled chain above
      other fuel
      λ m2 d off2 ds lt2 chain2 above2 other2.
        write_loop-Outcome fuel m2 z d off2 ds (fill m (get_block_ptr b) off (c ∷ text)).2
          (ground (arith, filled.counts, filled.all_or_full)) lt2 filled.bytes_left chain2 above2
          other2
