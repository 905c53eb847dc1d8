-- ===== src/FileSystem/Format/Formatted.antt =====
-- What `my_format` gives: a disk and an open file table in which `createfile` and the rest can work.
use hdu_os_experiment.Common.{
  ℕ, zero, suc, ◌+◌, ◌-◌, ◌≤◌, ◌<◌, ◌≡◌, ◌⊎◌, refl, arith, ◌∙◌, Bool, true, false, Option, none,
  some, List, [], ◌∷◌, length, inl, inr, Bool-cases, ◌==◌, leb, if◌then◌else◌,
}
use hdu_os_experiment.Memory.{Mem, get_u16, get_u32, memcpy}
use hdu_os_experiment.Memory.Laws.{set_u32_ne, set_u16_ne, put_ne}
use hdu_os_experiment.FileSystem.Fcb
use hdu_os_experiment.FileSystem.Fcb.{Tm, set_attr, set_s_block, set_len, judge_dir, init_fcb}
use hdu_os_experiment.FileSystem.Fcb.Time.{init_fcb_time_out}
use hdu_os_experiment.FileSystem.Fcb.Init.{init_fcb_out}
use hdu_os_experiment.FileSystem.Fat.{next_num, sync_fat2, end_mark, free_mark}
use hdu_os_experiment.FileSystem.Fat.Mirror.{
  IsMirrored, next_num_ext, sync_fat2_out, sync_fat2-IsMirrored, IsMirrored-ext,
}
use hdu_os_experiment.FileSystem.Dir.{entry, dir_exname}
use hdu_os_experiment.FileSystem.Dir.Used.{used}
use hdu_os_experiment.FileSystem.Oft.{Fs, Oft, set_oft, init_oft, skip}
use hdu_os_experiment.FileSystem.Create.{init_entry, init_dot, init_file_fcb}
use hdu_os_experiment.FileSystem.Create.File.{current, here, InDirectory}
use hdu_os_experiment.FileSystem.Format.{
  HostFile, root_name, write_boot, write_fat1, format_disk, init_slots, open_root, my_format,
}
use hdu_os_experiment.FileSystem.Format.Disk.{write_fat1-entries}
use hdu_os_experiment.FileSystem.Format.Root.{
  used-none, clear_uses_out, clear_uses-in_use, init_dot_out, init_dot-attr, init_dot-s_block,
  init_dot-len,
}

-- The state after a format: the current directory is the root, which is empty; the blocks after its
-- own are free; and the other slots are free.
pub record Formatted (s : Fs) : Type 0 where
  pub directory : InDirectory s
  pub is_root : here s ≡ 5
  pub no_length : Fcb.len (current s).fcb 0 ≡ 0
  pub no_entries : used 30 s.vd 5120 2 ≡ 0
  pub blocks : (j : ℕ) → j < 1024 → next_num s.vd j ≡ (if leb j 5 then end_mark else free_mark)
  pub mirrored : IsMirrored s.vd
  pub first_slot : (s.curr_oft_index ≡ 0) × ((s.oft_list 0).is_use ≡ true)
  pub other_slots : (j : ℕ) → 1 ≤ j → j < 10 → (s.oft_list j).is_use ≡ false

init_entry_below :
    (m : Mem) (p block_no : ℕ) (fname ename : List ℕ) (clock : ℕ → Tm) (a : ℕ)
    → length fname ≤ 8
    → length ename ≤ 3
    → a < p
    → init_entry m p p block_no fname ename clock a ≡ m a
unfolding init_entry set_len set_s_block
init_entry_below m p block_no fname ename clock a h1 h2 lt =
    init_fcb_time_out _ p (clock 1) a (inl (omega arith))
    ∙ (set_u32_ne _ (p + 28) 0 a (inl (omega arith))
        ∙ (set_u16_ne _ (p + 20) block_no a (inl (omega arith))
            ∙ (set_u32_ne _ (p + 28) _ a (inl (omega arith))
                ∙ init_fcb_out m p fname ename 1 (clock 0) h1 h2 a (inl lt))))

module _ (m : Mem) (clock : ℕ → Tm) where
  abbrev made : Mem
  made = init_file_fcb m 5 0 5 root_name dir_exname true clock

  -- The entry that is overwritten by the entry ".".
  abbrev first : Mem
  first = init_entry m 5120 5120 5 root_name dir_exname clock

  abbrev under : Mem
  under = set_attr first 5120 (Fcb.attr first 5120 + 4)

  abbrev dot : Mem
  dot = init_dot under 5120 (b'.' ∷ []) 4 5 (clock 2) (clock 3)

  abbrev dots : Mem
  dots = init_dot dot 5152 (b'.' ∷ b'.' ∷ []) 4 5 (clock 4) (clock 5)

  made-dots : (a : ℕ) → a < 5184 → made a ≡ dots a
  unfolding init_file_fcb
  made-dots a h = clear_uses_out 30 dots 5184 a h

  made-dot : (a : ℕ) → a < 5152 → made a ≡ dot a
  made-dot a h =
      made-dots a (omega arith)
      ∙ init_dot_out dot 5152 (b'.' ∷ b'.' ∷ []) 4 5 (clock 4) (clock 5) (omega arith) a
          (inl (omega arith))

  made_out : (a : ℕ) → a < 5120 → made a ≡ m a
  unfolding set_attr
  made_out a h =
      made-dot a (omega arith)
      ∙ (init_dot_out under 5120 (b'.' ∷ []) 4 5 (clock 2) (clock 3) (omega arith) a (inl h)
          ∙ (put_ne first 5131 _ a (inl (omega arith))
              ∙ init_entry_below m 5120 5 root_name dir_exname clock a (omega arith) (omega arith)
                  h))

  made-used : used 30 made 5120 2 ≡ 0
  unfolding Fcb.in_use init_file_fcb
  made-used = used-none 30 made 5120 2 λ j lo hi.
      clear_uses-in_use 30 dots 5184 (entry 5120 j + 12) (j - 2) (omega arith) (omega arith)

  made-attr : made 5131 ≡ 4
  made-attr =
      made-dot 5131 (omega arith)
      ∙ unfold Fcb.attr in
        init_dot-attr under 5120 (b'.' ∷ []) 4 5 (clock 2) (clock 3) (omega arith) (omega arith)

  made-s_block : Fcb.s_block made 5120 ≡ 5
  unfolding Fcb.s_block get_u16
  made-s_block = ground (
    arith,
    made-dot 5140,
    made-dot 5141,
    init_dot-s_block under 5120 (b'.' ∷ []) 4 5 (clock 2) (clock 3),
  )

  made-len : Fcb.len made 5120 ≡ 0
  unfolding Fcb.len get_u32 get_u16
  made-len = ground (
    arith,
    made-dot 5148,
    made-dot 5149,
    made-dot 5150,
    made-dot 5151,
    init_dot-len under 5120 (b'.' ∷ []) 4 5 (clock 2) (clock 3),
  )

  -- The FCB as it is copied into the first slot.
  copied-judge_dir : (fcb : Mem) → judge_dir (memcpy fcb 0 made 5120 32) 0 ≡ true
  unfolding judge_dir Fcb.attr memcpy
  copied-judge_dir fcb = rw made-attr refl

  copied-s_block : (fcb : Mem) → Fcb.s_block (memcpy fcb 0 made 5120 32) 0 ≡ 5
  unfolding memcpy
  copied-s_block fcb = unfold Fcb.s_block in unfold get_u16 in made-s_block

  copied-len : (fcb : Mem) → Fcb.len (memcpy fcb 0 made 5120 32) 0 ≡ 0
  unfolding memcpy
  copied-len fcb = unfold Fcb.len in unfold get_u32 in unfold get_u16 in made-len

init_slots-is_use :
    (left : ℕ) (l : ℕ → Oft) (i : ℕ) (clock : ℕ → Tm) (j : ℕ)
    → (i ≤ j) ⊎ ((l j).is_use ≡ false)
    → j < i + left
    → (init_slots left l i clock j).is_use ≡ false
unfolding init_slots set_oft init_oft
init_slots-is_use zero l i clock j h hi = ground arith
init_slots-is_use (suc left) l i clock j h hi = elim (Bool-cases (i == j)) [
  | inl at ↦ init_slots-is_use left _ (i + 1) (skip 1 clock) j (inr (rw at refl)) (omega arith)
  | inr other ↦ init_slots-is_use left _ (i + 1) (skip 1 clock) j (ground arith) (omega arith)
]

-- What `my_format` of a state gives, by whether the host's file can be opened.
abbrev pub Formats : Bool → (Mem → Mem) → Option (Mem × Fs) → Type 0
Formats false fwrite none = Unit {0}
Formats true fwrite none = ⊥
Formats false fwrite (some r) = ⊥
Formats true fwrite (some (saved, s')) = (saved ≡ fwrite s'.vd) × Formatted s'

module _ (address : ℕ) (s : Fs) where
  abbrev tables : Mem
  tables = sync_fat2 (write_fat1 (write_boot address s.vd))

  abbrev slots : ℕ → Oft
  slots = init_slots 10 s.oft_list 0 (skip 6 s.clock)

  abbrev state : Fs
  state = record s {
    vd = made tables s.clock;
    oft_list = set_oft slots 0 (open_root (slots 0) (made tables s.clock));
    curr_oft_index = 0;
    clock = skip 16 s.clock;
  }

  state-current : current state ≡ open_root (slots 0) (made tables s.clock)
  unfolding set_oft
  state-current = refl

  state-Formatted : Formatted state
  unfolding set_oft open_root
  state-Formatted = record {
    directory = record {
      is_dir = copied-judge_dir tables s.clock (slots 0).fcb;
      block_low = omega (arith, copied-s_block tables s.clock (slots 0).fcb);
      block_high = omega (arith, copied-s_block tables s.clock (slots 0).fcb);
      length = omega (arith, copied-len tables s.clock (slots 0).fcb);
      parent_low = omega arith;
      parent_entry = omega arith;
    };
    is_root = copied-s_block tables s.clock (slots 0).fcb;
    no_length = copied-len tables s.clock (slots 0).fcb;
    no_entries = made-used tables s.clock;
    blocks = λ j h.
        next_num_ext tables (made tables s.clock) j h
          (λ a lo hi. made_out tables s.clock a (omega arith))
        ∙ (next_num_ext (write_fat1 (write_boot address s.vd)) tables j h
              (λ a lo hi. sync_fat2_out _ a (inl (omega arith)))
            ∙ write_fat1-entries (write_boot address s.vd) j h);
    mirrored =
        IsMirrored-ext tables (made tables s.clock) (λ a lo hi. made_out tables s.clock a hi)
          (sync_fat2-IsMirrored _);
    first_slot = (refl, refl);
    other_slots = λ j lo hi. elim (Bool-cases (0 == j)) [
      | inl at ↦ absurd (ground arith)
      | inr other ↦
          rw other
            (init_slots-is_use 10 s.oft_list 0 (skip 6 s.clock) j (inl (omega arith)) (omega arith))
    ];
  }

-- Whatever the disk and the table held, `my_format` gives the whole disk to `fwrite` for the host's file, if that
-- can be opened, and leaves the root directory open as the current one, empty, with all blocks
-- after it free in both tables and the other nine slots free; else the program ends.
pub my_format-Formats :
    (address : ℕ) (f : HostFile) (s : Fs) → Formats f.opens f.fwrite (my_format address f s)
unfolding my_format format_disk
my_format-Formats address f s = elim (Bool-cases f.opens) [
  | inl opens ↦ rw opens (refl, state-Formatted address s)
  | inr fails ↦ rw fails tt
]
