-- ===== src/BlockDriver/RoundTrip.antt =====
-- What is written to the device is read back.
use hdu_os_experiment.Common.{
  ℕ, ◌+◌, ◌*◌, ◌%◌, ◌≤◌, ◌<◌, ◌≡◌, refl, arith, true, false, List, [], ◌∷◌, inl, ◌∙◌, ap, le→ltb,
}
use hdu_os_experiment.Memory.{Mem, memcpy}
use hdu_os_experiment.Memory.Laws.{memcpy_in, memcpy_out}
use hdu_os_experiment.BlockDriver.{Bio, Work, total_size, word, transfer, do_segments, do_bio}

-- The segments fit into the device from `pos` on.
abbrev pub InRange : ℕ → ℕ → List Mem → Type 0
InRange pos size [] = Unit {0}
InRange pos size (b ∷ bs) = (pos + size ≤ total_size) × InRange (pos + size) size bs

-- The memory holds the segments one after another from `pos` on.
abbrev pub Holds : Mem → ℕ → ℕ → List Mem → Type 0
Holds disk pos size [] = Unit {0}
Holds disk pos size (b ∷ bs) =
    ((k : ℕ) → k < size → disk (pos + k) ≡ b k) × Holds disk (pos + size) size bs

-- Two lists of pages agree in their first `size` bytes.
abbrev pub Agree : ℕ → List Mem → List Mem → Type 0
Agree size [] [] = Unit {0}
Agree size [] (b ∷ bs) = ⊥
Agree size (c ∷ cs) [] = ⊥
Agree size (c ∷ cs) (b ∷ bs) = ((k : ℕ) → k < size → c k ≡ b k) × Agree size cs bs

abbrev pub SameLength : List Mem → List Mem → Type 0
SameLength [] [] = Unit {0}
SameLength [] (b ∷ bs) = ⊥
SameLength (c ∷ cs) [] = ⊥
SameLength (c ∷ cs) (b ∷ bs) = SameLength cs bs

-- What a write of the segments leaves.
pub record Wrote (disk : Mem) (pos size : ℕ) (bs : List Mem) (w : Work (List Mem)) : Type 0 where
  pub good : w.in_range ≡ true
  pub holds : Holds w.disk pos size bs
  pub before : (x : ℕ) → x < pos → w.disk x ≡ disk x

no_wrap : (a : ℕ) → a ≤ total_size → a % word ≡ a
no_wrap a h = omega arith

put_in :
    (disk : Mem) (pos size k : ℕ) (b : Mem) → k < size → memcpy disk pos b 0 size (pos + k) ≡ b k
put_in disk pos size k b h = memcpy_in disk pos b 0 size k h ∙ ap b (omega arith)

do_segments-Wrote :
    (bs : List Mem) (size : ℕ) (disk : Mem) (pos : ℕ)
    → InRange pos size bs
    → Wrote disk pos size bs (do_segments size true disk pos bs)
unfolding do_segments transfer
do_segments-Wrote [] size disk pos h = record { good = refl; holds = tt; before = λ x lt. refl }
do_segments-Wrote (b ∷ bs) size disk pos h =
    let disk1 = memcpy disk pos b 0 size in
    let rest = do_segments-Wrote bs size disk1 (pos + size) h.1 in
    rw (no_wrap (pos + size) h.0, le→ltb total_size (pos + size) h.0)
      (record {
        good = rest.good;
        holds =
            (λ k lt. rest.before (pos + k) (omega arith) ∙ put_in disk pos size k b lt, rest.holds);
        before = λ x lt. rest.before x (omega arith) ∙ memcpy_out disk pos b 0 size x (inl lt);
      })

-- What a read of as many segments gives.
pub record DidRead (disk : Mem) (size : ℕ) (bs : List Mem) (w : Work (List Mem)) : Type 0 where
  pub good : w.in_range ≡ true
  pub same_disk : w.disk ≡ disk
  pub pages : Agree size w.out bs

do_segments-DidRead :
    (cs bs : List Mem) (size : ℕ) (disk : Mem) (pos : ℕ)
    → SameLength cs bs
    → InRange pos size bs
    → Holds disk pos size bs
    → DidRead disk size bs (do_segments size false disk pos cs)
unfolding do_segments transfer
do_segments-DidRead [] [] size disk pos l h s = record { good = refl; same_disk = refl; pages = tt }
do_segments-DidRead [] (b ∷ bs) size disk pos l h s = absurd l
do_segments-DidRead (c ∷ cs) [] size disk pos l h s = absurd l
do_segments-DidRead (c ∷ cs) (b ∷ bs) size disk pos l h s =
    let rest = do_segments-DidRead cs bs size disk (pos + size) l h.1 s.1 in
    rw (no_wrap (pos + size) h.0, le→ltb total_size (pos + size) h.0)
      (record {
        good = rest.good;
        same_disk = rest.same_disk;
        pages = (λ k lt. got k lt ∙ s.0 k lt, rest.pages);
      })
  where
    from_zero : (k : ℕ) → k ≡ 0 + k
    from_zero k = omega arith

    got : (k : ℕ) → k < size → memcpy c 0 disk pos size k ≡ disk (pos + k)
    got k lt = ap (memcpy c 0 disk pos size) (from_zero k) ∙ memcpy_in c 0 disk pos size k lt

abbrev pub write_of : ℕ → List Mem → Bio
write_of sector bs = record { bi_sector = sector; is_write = true; segments = bs }

abbrev pub read_of : ℕ → List Mem → Bio
read_of sector cs = record { bi_sector = sector; is_write = false; segments = cs }

-- The bio that reads, on the memory that the bio that writes has left.
abbrev pub read_back : (Bio → ℕ) → Mem → ℕ → List Mem → List Mem → Work Bio
read_back cur_bytes disk sector bs cs =
    do_bio cur_bytes (do_bio cur_bytes disk (write_of sector bs)).disk (read_of sector cs)

-- A bio of `size` bytes a segment that writes within the device, and one that then reads as many
-- segments from the same sector, are both carried out, and the pages read agree with those written.
pub do_bio-read-write :
    (cur_bytes : Bio → ℕ) (disk : Mem) (sector size : ℕ) (bs cs : List Mem)
    → cur_bytes (write_of sector bs) ≡ size
    → cur_bytes (read_of sector cs) ≡ size
    → sector * 512 ≤ total_size
    → InRange (sector * 512) size bs
    → SameLength cs bs
    → ((do_bio cur_bytes disk (write_of sector bs)).in_range ≡ true)
      × ((read_back cur_bytes disk sector bs cs).in_range ≡ true)
      × Agree size (read_back cur_bytes disk sector bs cs).out.segments bs
unfolding do_bio
do_bio-read-write cur_bytes disk sector size bs cs ew er low range same =
    let wrote = do_segments-Wrote bs size disk (sector * 512) range in
    let read = do_segments-DidRead cs bs size _ (sector * 512) same range wrote.holds in
    rw (ew, er, no_wrap (sector * 512) low) (wrote.good, read.good, read.pages)
