-- ===== src/FileSystem/Delete/Walk.antt =====
-- `deleteDirAtFat` of exam5/File_System/main.cpp gives back the blocks of a whole tree of files.
use hdu_os_experiment.Common.{
  ℕ, zero, suc, ◌+◌, ◌/◌, ◌≤◌, ◌<◌, ◌≡◌, ◌≢◌, ◌⊎◌, inl, inr, refl, arith, List, [], ◌∷◌, ◌++◌, has,
  Distinct, ltb, if◌then◌else◌, ◌∙◌, some, none, Option, ne→==, eq→==, Bool-cases, lt→ltb, le→ltb,
}
use hdu_os_experiment.Memory.{Mem}
use hdu_os_experiment.Memory.Laws.{Outside}
use hdu_os_experiment.FileSystem.Fcb
use hdu_os_experiment.FileSystem.Fcb.{judge_dir}
use hdu_os_experiment.FileSystem.Fcb.Fields.{s_block_ext}
use hdu_os_experiment.FileSystem.Fat.{
  get_block_ptr, next_num, set_next, end_mark, free_mark, delete_dir_at_fat, delete_children,
}
use hdu_os_experiment.FileSystem.Fat.Entry.{next_num-set_next, set_next_out}
use hdu_os_experiment.FileSystem.Fat.Delete.{Freed, delete_file_at_fat-Freed}
use hdu_os_experiment.FileSystem.Dir.{entry}
use hdu_os_experiment.FileSystem.Dir.Used.{used}
use hdu_os_experiment.FileSystem.Delete.Tree.{
  DirTree, tree, Entries, no_entry, unused, file, folder, has-append, Distinct-left, Distinct-right,
  Distinct-apart, Distinct-lt, Entries-empty, Apart, Apart-entry, used-Same, Entries-frame,
}

-- In `m'` the blocks `bs` are free, and nothing else has changed outside the second table but the last
-- two bytes of block 128.
pub record Released (m m' : Mem) (bs : List ℕ) : Type 0 where
  pub blocks : (j : ℕ) → j < 1024 → next_num m' j ≡ (if has j bs then free_mark else next_num m j)
  pub others : (a : ℕ) → (a < 1024) ⊎ (3072 ≤ a) → Outside a 132094 2 → m' a ≡ m a

pub Released-Freed : (m m' : Mem) (bs : List ℕ) → Freed m m' bs → Released m m' bs
Released-Freed m m' bs f = record {
  blocks = λ j h. f.entries j ∙ rw (ne→== j end_mark (omega arith)) refl;
  others = f.others;
}

Released-none : (m : Mem) → Released m m []
Released-none m = record { blocks = λ j h. refl; others = λ a h h'. refl }

-- Two walks, one after the other.
Released-append :
    (m m1 m2 : Mem) (cs bs : List ℕ)
    → Released m m1 cs
    → Released m1 m2 bs
    → Released m m2 (cs ++ bs)
Released-append m m1 m2 cs bs r r' = record {
  blocks = λ j h. ground (arith, has-append j cs bs, r.blocks j h, r'.blocks j h);
  others = λ a h h'. r'.others a h h' ∙ r.others a h h';
}

-- The block of the directory itself.
Released-block :
    (m m' : Mem) (b : ℕ) (bs : List ℕ)
    → b < 1024
    → Released m m' bs
    → Released m (set_next m' b free_mark) (b ∷ bs)
Released-block m m' b bs h r = record {
  blocks = λ j lt. ground (arith, next_num-set_next m' b free_mark j, r.blocks j lt);
  others = λ a o o'. set_next_out m' b free_mark a (ground arith) ∙ r.others a o o';
}

-- What a walk of so many blocks gives.
abbrev pub Walks : Option Mem → Mem → List ℕ → Type 0
Walks none m bs = ⊥
Walks (some m') m bs = Released m m' bs

-- The rest of the entries after the blocks `cs` of one of them.
Walks-append :
    (r : Option Mem) (m m1 : Mem) (cs bs : List ℕ)
    → Released m m1 cs
    → Walks r m1 bs
    → Walks r m (cs ++ bs)
Walks-append none m m1 cs bs h w = w
Walks-append (some m2) m m1 cs bs h w = Released-append m m1 m2 cs bs h w

-- The entries behind the one whose blocks have been given back.
after-frame :
    {m m1 : Mem} {b left i n : ℕ} {cs bs : List ℕ}
    → Released m m1 cs
    → Distinct 1024 (cs ++ bs)
    → 5 ≤ b
    → b ≢ 128
    → i + left ≤ 32
    → Entries m b left i bs n
    → Entries m1 b left i bs n
after-frame {m} {m1} {b} {left} {i} {n} {cs} {bs} r d lo ne h t =
    Entries-frame m m1 (λ a l o. r.others a (inr (omega arith)) o) lo ne h
      (λ j k. ground (
        arith,
        Distinct-apart 1024 j cs bs d k,
        r.blocks j (Distinct-lt 1024 j bs (Distinct-right 1024 cs bs d) k),
      ))
      t

pub Walks-some :
    (r : Option Mem) (m : Mem) (bs : List ℕ)
    → Walks r m bs
    → (m' : Mem) × (r ≡ some m') × Released m m' bs
Walks-some none m bs w = absurd w
Walks-some (some m') m bs w = (m', refl, w)

-- The count of what is left after the entry `i`.
next-unused :
    (m : Mem) (p left i fnum : ℕ)
    → fnum + 2 ≡ i + used (suc left) m p i
    → Fcb.in_use m (entry p i) ≡ 0
    → fnum + 1 + 2 ≡ i + 1 + used left m p (i + 1)
next-unused m p left i fnum c e = ground arith

next-used :
    (m : Mem) (p left i fnum : ℕ)
    → fnum + 2 ≡ i + used (suc left) m p i
    → Fcb.in_use m (entry p i) ≢ 0
    → fnum + 2 ≡ i + 1 + used left m p (i + 1)
next-used m p left i fnum c e = ground arith

mutual
  unfolding delete_dir_at_fat

  pub delete_dir_at_fat-Walks :
      (fuel : ℕ) (m : Mem) {p n : ℕ} {bs : List ℕ}
      → Apart p
      → DirTree m p bs n
      → Distinct 1024 bs
      → n ≤ fuel
      → Walks (delete_dir_at_fat fuel m p) m bs
  delete_dir_at_fat-Walks zero m at (tree e lo ne c t) d h = absurd (omega arith)
  delete_dir_at_fat-Walks (suc fuel) m {p = p} at (tree {b = b} {bs = bs} e lo ne c t) d h = rw e (
      finish (delete_children fuel m (get_block_ptr b) 2 (Fcb.len m p / 32)) (
        delete_children-Walks fuel m 30 2 (Fcb.len m p / 32) lo ne (omega arith) (omega (arith, c))
          t d.2 (omega arith)))
    where
      finish :
          (r : Option Mem)
          → Walks r m bs
          → Walks
              (elim r as (λ _. Option Mem) [
                | none ↦ none
                | some m' ↦ some (set_next m' (Fcb.s_block m' p) free_mark)
              ])
              m
              (b ∷ bs)
      finish none w = w
      finish (some m') w =
          rw
            (s_block_ext m' m p
                (λ a l u z. w.others a (inr (omega (arith, at.0))) (ground (arith, at.1)))
              ∙ e)
            (Released-block m m' b bs d.0 w)

  delete_children-Walks :
      (fuel : ℕ) (m : Mem) (left i fnum : ℕ) {b n : ℕ} {bs : List ℕ}
      → 5 ≤ b
      → b ≢ 128
      → i + left ≤ 32
      → fnum + 2 ≡ i + used left m (get_block_ptr b) i
      → Entries m b left i bs n
      → Distinct 1024 bs
      → n ≤ fuel
      → Walks (delete_children fuel m (get_block_ptr b) i fnum) m bs
  delete_children-Walks zero m left i fnum lo ne h c no_entry d f = absurd (omega arith)
  delete_children-Walks zero m left i fnum lo ne h c (unused e t) d f = absurd (omega arith)
  delete_children-Walks zero m left i fnum lo ne h c (file u k g t) d f = absurd (omega arith)
  delete_children-Walks zero m left i fnum lo ne h c (folder u k g t) d f = absurd (omega arith)
  delete_children-Walks (suc fuel) m zero i fnum lo ne h c no_entry d f =
      rw (delete_children, le→ltb i (fnum + 2) (omega (arith, c))) (Released-none m)
  delete_children-Walks (suc fuel) m (suc left) i fnum {b = b} lo ne h c (unused e t) d f =
      elim (Bool-cases (ltb i (fnum + 2))) [
        | inl more ↦
            rw (delete_children, more, eq→== _ 0 e)
              (delete_children-Walks fuel m left (i + 1) (fnum + 1) lo ne (omega arith)
                (next-unused m (get_block_ptr b) left i fnum c e) t d (omega arith))
        | inr past ↦
            rw (delete_children, past, Entries-empty (unused e t) (ground arith)) (Released-none m)
      ]
  delete_children-Walks (suc fuel) m (suc left) i fnum {b = b} lo ne h c
        (file {cs = cs} {bs = bs} u k g t) d f =
      let (m1, run, freed) = delete_file_at_fat-Freed fuel m g (omega arith) in
      let gone = Released-Freed m m1 cs freed in
      let counted = next-used m (get_block_ptr b) left i fnum c u in
      let kept =
        used-Same m m1 (λ a l o. gone.others a (inr (omega arith)) o) left b (i + 1) lo ne
          (omega arith) in
      rw (delete_children, lt→ltb i (fnum + 2) (omega (arith, counted)), ne→== _ 0 u, k, run)
        (Walks-append _ m m1 cs bs gone (
          delete_children-Walks fuel m1 left (i + 1) fnum lo ne (omega arith)
            (omega (arith, counted, kept)) (after-frame gone d lo ne (omega arith) t)
            (Distinct-right 1024 cs bs d) (omega arith)))
  delete_children-Walks (suc fuel) m (suc left) i fnum {b = b} lo ne h c
        (folder {cs = cs} {bs = bs} u k g t) d f =
      let (m1, run, gone) = Walks-some _ m cs (
        delete_dir_at_fat-Walks fuel m (Apart-entry b i lo ne (omega arith)) g
          (Distinct-left 1024 cs bs d) (omega arith)) in
      let counted = next-used m (get_block_ptr b) left i fnum c u in
      let kept =
        used-Same m m1 (λ a l o. gone.others a (inr (omega arith)) o) left b (i + 1) lo ne
          (omega arith) in
      rw (delete_children, lt→ltb i (fnum + 2) (omega (arith, counted)), ne→== _ 0 u, k, run)
        (Walks-append _ m m1 cs bs gone (
          delete_children-Walks fuel m1 left (i + 1) fnum lo ne (omega arith)
            (omega (arith, counted, kept)) (after-frame gone d lo ne (omega arith) t)
            (Distinct-right 1024 cs bs d) (omega arith)))
