-- ===== src/FileSystem/Control/Bits.antt =====
-- What `my_ctrl` changes in the attribute of a file.
use hdu_os_experiment.Common.{
  ℕ, ◌+◌, ◌/◌, ◌%◌, ◌≤◌, ◌<◌, ◌≡◌, ◌≢◌, refl, arith, true, false, some, List, ◌==◌, if◌then◌else◌,
  le→ltb,
}
use hdu_os_experiment.Memory.{put}
use hdu_os_experiment.Memory.Token.{split_name, name_ext}
use hdu_os_experiment.FileSystem.Fcb
use hdu_os_experiment.FileSystem.Fcb.{set_attr, judge_dir}
use hdu_os_experiment.FileSystem.Fat.{get_block_ptr}
use hdu_os_experiment.FileSystem.Dir.{entry, found}
use hdu_os_experiment.FileSystem.Dir.Lookup.{Counts, first_wanted, get_index_of_fcb-first_wanted}
use hdu_os_experiment.FileSystem.Oft.{Fs}
use hdu_os_experiment.FileSystem.Create.File.{current, here}
use hdu_os_experiment.FileSystem.Control.{control, control_found, control_named, my_ctrl}

-- Of the attribute at `p` only the bits R and HIDE differ in `s'`, as control `i` asks, and nothing
-- else on the disk.
pub record Controlled (s s' : Fs) (p i : ℕ) : Type 0 where
  pub read_only :
      Fcb.attr s'.vd p % 2 ≡ (if i == 0 then 0 else if i == 1 then 1 else Fcb.attr s.vd p % 2)
  pub hidden :
      Fcb.attr s'.vd p / 2 % 2
      ≡ (if i == 2 then 1 else if i == 3 then 0 else Fcb.attr s.vd p / 2 % 2)
  pub kind : Fcb.attr s'.vd p / 4 ≡ Fcb.attr s.vd p / 4
  pub same_kind : judge_dir s'.vd p ≡ judge_dir s.vd p
  pub elsewhere : (a : ℕ) → a ≢ p + 11 → s'.vd a ≡ s.vd a
  pub slots : s'.oft_list ≡ s.oft_list

module _ (s : Fs) (p i : ℕ) (byte : Fcb.attr s.vd p < 256) where
  abbrev after : Fs
  after = record s { vd = set_attr s.vd p (control (Fcb.attr s.vd p) i) }

  after-attr : Fcb.attr after.vd p ≡ control (Fcb.attr s.vd p) i
  unfolding Fcb.attr set_attr put control
  after-attr = ground arith

  after-read_only :
      Fcb.attr after.vd p % 2 ≡ (if i == 0 then 0 else if i == 1 then 1 else Fcb.attr s.vd p % 2)
  unfolding control
  after-read_only = rw after-attr (ground arith)

  after-hidden :
      Fcb.attr after.vd p / 2 % 2
      ≡ (if i == 2 then 1 else if i == 3 then 0 else Fcb.attr s.vd p / 2 % 2)
  unfolding control
  after-hidden = rw after-attr (ground arith)

  after-kind : Fcb.attr after.vd p / 4 ≡ Fcb.attr s.vd p / 4
  unfolding control
  after-kind = rw after-attr (ground arith)

  after-judge_dir : judge_dir after.vd p ≡ judge_dir s.vd p
  after-judge_dir = unfold judge_dir in rw high refl
    where
      high : Fcb.attr after.vd p / 16 ≡ Fcb.attr s.vd p / 16
      high = omega (arith, after-kind)

  after-Controlled : Controlled s after p i
  after-Controlled = record {
    read_only = after-read_only;
    hidden = after-hidden;
    kind = after-kind;
    same_kind = after-judge_dir;
    elsewhere = λ a ne. unfold set_attr in unfold put in ground arith;
    slots = refl;
  }

-- In a directory that counts its entries, `my_ctrl` with a control from 0 to 3, of a data file that
-- entry `k` is the first to be, returns 0. Control 0 makes the file writable, 1 read-only, 2 hidden
-- and 3 visible; it stays a data file, and nothing else on the disk or in the slots changes.
pub my_ctrl-Controlled :
    (s : Fs) (filename fname ename : List ℕ) (k i : ℕ)
    → i ≤ 3
    → split_name filename ≡ name_ext fname ename
    → Counts s.vd (get_block_ptr (here s)) (Fcb.len (current s).fcb 0 / 32)
    → first_wanted s.vd (get_block_ptr (here s)) fname ename false 30 2 ≡ found k
    → Fcb.attr s.vd (entry (get_block_ptr (here s)) k) < 256
    → (s' : Fs) × (my_ctrl s filename i ≡ some (true, s'))
      × Controlled s s' (entry (get_block_ptr (here s)) k) i
unfolding my_ctrl control_named control_found
my_ctrl-Controlled s filename fname ename k i h parts counts hit byte = (
  after s (entry (get_block_ptr (here s)) k) i byte,
  rw
      (
        le→ltb 3 i h,
        parts,
        control_named,
        get_index_of_fcb-first_wanted s.vd (current s).fcb 0 fname ename false counts,
        hit,
      )
      refl,
  after-Controlled s (entry (get_block_ptr (here s)) k) i byte,
)
