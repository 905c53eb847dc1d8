-- ===== src/FileSystem/Delete/Again.antt =====
-- The current directory of exam5/File_System/main.cpp after `createfile` has put one more entry in it:
-- what `deleteFile` needs of it holds.
use hdu_os_experiment.Common.{
  ℕ, ◌+◌, ◌/◌, ◌≤◌, ◌<◌, ◌≡◌, ◌≢◌, ◌∙◌, ap, refl, arith, true, Bool, List,
}
use hdu_os_experiment.Memory.{Mem}
use hdu_os_experiment.FileSystem.Fcb
use hdu_os_experiment.FileSystem.Fcb.{judge_dir, file_name_match, set_len}
use hdu_os_experiment.FileSystem.Fcb.Fields.{s_block-set_len, judge_dir-set_len, len-set_len}
use hdu_os_experiment.FileSystem.Fat.{get_block_ptr}
use hdu_os_experiment.FileSystem.Dir.{entry, same, found}
use hdu_os_experiment.FileSystem.Dir.Used.{used, used_le}
use hdu_os_experiment.FileSystem.Dir.Lookup.{wanted, first_wanted, Cleared, Counts}
use hdu_os_experiment.FileSystem.Dir.Entered.{
  SameHeads, used-Entered, first_wanted-Entered, Cleared-Entered,
}
use hdu_os_experiment.FileSystem.Oft.{Fs}
use hdu_os_experiment.FileSystem.Create.Ready.{Ready}
use hdu_os_experiment.FileSystem.Create.File.{
  current, here, in_parent, InDirectory, OneMore, Spared,
}

same_refl : (b c : Bool) → b ≡ c → same b c ≡ true
same_refl b c e = ground arith

-- One more entry in use, and 32 more bytes of length.
Counts-moved :
    (m : Mem) (b b' n len len' : ℕ)
    → b' ≡ b
    → len' ≡ len + 32
    → used 30 m (get_block_ptr b) 2 ≡ n + 1
    → n ≡ len / 32
    → Counts m (get_block_ptr b') (len' / 32)
Counts-moved m b b' n len len' e e' more count = rw e (omega (arith, e', more, count))

-- The heads of the other entries are spared.
Spared-head :
    (s : Fs) (i k a : ℕ)
    → InDirectory s
    → 2 ≤ k
    → k < 32
    → k ≢ i
    → entry (get_block_ptr (here s)) k ≤ a
    → a < entry (get_block_ptr (here s)) k + 13
    → Spared s i a
Spared-head s i k a dir lo hi ne from below =
    (ground (arith, dir.block_low), ground arith, ground arith, ground arith)

-- The current directory counts its entries, and entry `i` is the first in use with this name.
pub record Holding (s : Fs) (fname ename : List ℕ) (isdir : Bool) (i : ℕ) : Type 0 where
  pub dir : InDirectory s
  pub counts : Counts s.vd (get_block_ptr (here s)) (Fcb.len (current s).fcb 0 / 32)
  pub cleared : Cleared s.vd (get_block_ptr (here s)) fname ename isdir 30 2
  pub hit : first_wanted s.vd (get_block_ptr (here s)) fname ename isdir 30 2 ≡ found i

module _ (s s1 : Fs) (grown : OneMore s s1) where
  pub current-OneMore :
      current s1
      ≡ record (current s) { fcb = set_len (current s).fcb 0 (Fcb.len (current s).fcb 0 + 32) }
  current-OneMore = ap s1.oft_list grown.same_file ∙ grown.slot

  pub here-OneMore : here s1 ≡ here s
  here-OneMore = rw current-OneMore (s_block-set_len (current s).fcb 0 _)

  pub in_parent-OneMore : in_parent s1 ≡ in_parent s
  in_parent-OneMore = rw current-OneMore refl

  pub len-OneMore :
      Fcb.len (current s).fcb 0 ≤ 1024 → Fcb.len (current s1).fcb 0 ≡ Fcb.len (current s).fcb 0 + 32
  len-OneMore h = rw current-OneMore (len-set_len (current s).fcb 0 _ (omega (arith, h)))

  module _ (fname ename : List ℕ) (isdir : Bool) (i : ℕ) (ready : Ready s fname ename isdir i)
      (heads : SameHeads s.vd s1.vd (get_block_ptr (here s)) i)
      (now : Fcb.in_use s1.vd (entry (get_block_ptr (here s)) i) ≡ 1)
      (kind : judge_dir s1.vd (entry (get_block_ptr (here s)) i) ≡ isdir)
      (name : file_name_match s1.vd (entry (get_block_ptr (here s)) i) fname ename ≡ true) where
    used-OneMore :
        used 30 s1.vd (get_block_ptr (here s)) 2 ≡ used 30 s.vd (get_block_ptr (here s)) 2 + 1
    used-OneMore =
        used-Entered s.vd s1.vd (get_block_ptr (here s)) i heads 30 2 ready.unused now (omega arith)
          (omega arith) ready.low ready.high

    Counts-OneMore : Counts s1.vd (get_block_ptr (here s1)) (Fcb.len (current s1).fcb 0 / 32)
    Counts-OneMore =
        Counts-moved s1.vd (here s) (here s1) _ _ _ here-OneMore (len-OneMore ready.dir.length)
          used-OneMore ready.counts

    InDirectory-OneMore : InDirectory s1
    InDirectory-OneMore = record {
      is_dir = rw current-OneMore (judge_dir-set_len (current s).fcb 0 _ ∙ ready.dir.is_dir);
      block_low = rw here-OneMore ready.dir.block_low;
      block_high = rw here-OneMore ready.dir.block_high;
      length =
          rw (len-OneMore ready.dir.length) (
            omega (arith, used-OneMore, ready.counts, used_le 30 s1.vd (get_block_ptr (here s)) 2));
      parent_low = rw current-OneMore ready.dir.parent_low;
      parent_entry = rw current-OneMore ready.dir.parent_entry;
    }

    Cleared-OneMore : Cleared s1.vd (get_block_ptr (here s1)) fname ename isdir 30 2
    Cleared-OneMore = rw here-OneMore (
        Cleared-Entered s.vd s1.vd (get_block_ptr (here s)) i heads fname ename isdir 30 2 now
          (omega arith) (omega arith) ready.cleared)

    -- The search for the name finds the new entry.
    first_wanted-OneMore :
        first_wanted s1.vd (get_block_ptr (here s1)) fname ename isdir 30 2 ≡ found i
    first_wanted-OneMore = rw here-OneMore (
        first_wanted-Entered s.vd s1.vd (get_block_ptr (here s)) i heads fname ename isdir 30 2
          wants (omega arith) (omega arith) ready.low ready.high ready.fresh)
      where
        wants : wanted s1.vd (get_block_ptr (here s)) fname ename isdir i ≡ true
        wants = rw (now, same_refl _ _ kind, name) refl

    pub OneMore-Holding : Holding s1 fname ename isdir i
    OneMore-Holding = record {
      dir = InDirectory-OneMore;
      counts = Counts-OneMore;
      cleared = Cleared-OneMore;
      hit = first_wanted-OneMore;
    }

-- The heads of the other entries, when only what is spared is known to be the same.
pub Spared-SameHeads :
    (s s1 : Fs) (i : ℕ)
    → InDirectory s
    → ((k a : ℕ)
        → 2 ≤ k
        → k < 32
        → entry (get_block_ptr (here s)) k ≤ a
        → a < entry (get_block_ptr (here s)) k + 13
        → Spared s i a
        → s1.vd a ≡ s.vd a)
    → SameHeads s.vd s1.vd (get_block_ptr (here s)) i
Spared-SameHeads s s1 i dir h k a lo hi ne from to =
    h k a lo hi from to (Spared-head s i k a dir lo hi ne from to)
