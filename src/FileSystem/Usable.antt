-- ===== src/FileSystem/Usable.antt =====
-- A data file of exam5/File_System/main.cpp that is made, opened, written and read.
use hdu_os_experiment.Common.{
  ℕ, ◌++◌, ◌+◌, ◌/◌, ◌≤◌, ◌<◌, ◌≡◌, ◌≢◌, ◌⊎◌, inl, inr, ◌∙◌, sym, subst, arith, false, Option, none,
  some, List, [], ◌∷◌, length,
}
use hdu_os_experiment.Memory.{Mem, get_u16}
use hdu_os_experiment.Memory.Text.{IsText}
use hdu_os_experiment.Memory.Token.{split_name, name_ext}
use hdu_os_experiment.FileSystem.Fcb
use hdu_os_experiment.FileSystem.Fcb.{judge_dir}
use hdu_os_experiment.FileSystem.Fcb.Init.{IsName}
use hdu_os_experiment.FileSystem.Fat.{
  get_block_ptr, get_next_vhd_block, end_mark, next_num, free_mark,
}
use hdu_os_experiment.FileSystem.Fat.Chain.{Chain}
use hdu_os_experiment.FileSystem.Dir.{entry, get_next_fcb, not_found}
use hdu_os_experiment.FileSystem.Dir.Lookup.{first_wanted, Cleared, Counts}
use hdu_os_experiment.FileSystem.Oft.{Fs}
use hdu_os_experiment.FileSystem.Oft.Slots.{FirstSlot}
use hdu_os_experiment.FileSystem.Create.{rewound, createfile}
use hdu_os_experiment.FileSystem.Create.File.{current, here, InDirectory, NewFile}
use hdu_os_experiment.FileSystem.Create.Outcome.{
  createfile-NewFile, block-lt, block-ge, block-other,
}
use hdu_os_experiment.FileSystem.Create.Ready.{Ready, rewound-Ready, rewound-here}
use hdu_os_experiment.FileSystem.Delete.Again.{here-OneMore}
use hdu_os_experiment.FileSystem.Delete.Undo.{new-Chain, NewFile-Holding}
use hdu_os_experiment.FileSystem.Open.{my_open}
use hdu_os_experiment.FileSystem.Open.Opened.{IsOpened, Opens, my_open-Opens}
use hdu_os_experiment.FileSystem.Write.{write_pre_process, do_write}
use hdu_os_experiment.FileSystem.Write.Result.{IsOpen}
use hdu_os_experiment.FileSystem.Read.RoundTrip.{ReadsBack, my_read-do_write}

-- What opening a file in `s` gave: the file is the current one, and a rewrite of it with `text` reads
-- back; or no slot was free; or, with `none`, its path has run over the end of the array.
abbrev pub Usable : Fs → List ℕ → List ℕ → Option (ℕ × Fs) → Type 0
Usable s filename text none = 80 ≤ length ((current s).fdt.dir_name.chars ++ filename)
Usable s filename text (some (code, s')) =
    ((code ≡ 0)
      × ReadsBack s'.curr_oft_index text
          (do_write (write_pre_process s' s'.curr_oft_index false) s'.curr_oft_index text))
    ⊎ ((code ≡ 1) × FirstSlot s.oft_list 0 10 none)

s_block_copied :
    (m m' : Mem) (p : ℕ)
    → ((x : ℕ) → x < 32 → m x ≡ m' (p + x))
    → Fcb.s_block m 0 ≡ Fcb.s_block m' p
unfolding Fcb.s_block get_u16
s_block_copied m m' p h = ground (arith, h 20, h 21)

-- The slot of a file that is on one block.
one_block-IsOpen :
    (s s' : Fs) (i j b : ℕ)
    → IsOpened s s' j i
    → Chain s.vd (Fcb.s_block s.vd (entry (get_block_ptr (here s)) i)) (b ∷ [])
    → 5 ≤ b
    → b ≢ here s
    → 5 ≤ here s
    → here s < 1024
    → next_num s.vd (here s) ≢ free_mark
    → i < 32
    → IsOpen s' j (b ∷ [])
one_block-IsOpen s s' i j b o chain above ne lo hi taken place = record {
  chain =
      rw
        (
          o.disk,
          s_block_copied (s'.oft_list j).fcb s.vd (entry (get_block_ptr (here s)) i) o.copied,
        )
        chain;
  above = (above, tt);
  parent =
      rw (o.disk, o.parent) (record { low = lo; high = hi; out = ground arith; taken = taken });
  entry = rw o.place place;
}

Opens-Usable :
    (s : Fs) (i b : ℕ) (filename text : List ℕ) (r : Option (ℕ × Fs))
    → judge_dir s.vd (entry (get_block_ptr (here s)) i) ≡ false
    → Opens s i filename r
    → ((s' : Fs) (j : ℕ) → IsOpened s s' j i → IsOpen s' j (b ∷ []))
    → IsText text
    → length text < 2147483648
    → Usable s filename text r
Opens-Usable s i b filename text none kind h slot t small = rw kind at h
Opens-Usable s i b filename text (some (code, s')) kind (inr h) slot t small = inr (h.0, h.2)
Opens-Usable s i b filename text (some (code, s')) kind (inl (ok, (j, first, o))) slot t small =
    inl (
      ok,
      subst (λ c. ReadsBack c text (do_write (write_pre_process s' c false) c text))
          (sym o.is_current)
          (my_read-do_write s' j (b ∷ []) text (omega (arith, first.1)) (slot s' j o) t small),
    )

-- Opening the file that is new in `s1`.
NewFile-Usable :
    (s s1 : Fs) (filename fname ename : List ℕ) (i b : ℕ) (text : List ℕ)
    → Ready s fname ename false i
    → next_num s.vd (here s) ≢ free_mark
    → b ≢ here s
    → length filename < 12
    → split_name filename ≡ name_ext fname ename
    → 5 ≤ b
    → b < 1024
    → IsText text
    → length text < 2147483648
    → NewFile s s1 fname ename i b
    → Usable s1 filename text (my_open s1 filename)
NewFile-Usable s s1 filename fname ename i b text ready taken ne short parts above below t small
      new =
    let has = NewFile-Holding s s1 fname ename i b ready new in
    let same = here-OneMore s s1 new.one_more in
    Opens-Usable s1 i b filename text (my_open s1 filename)
      (subst (λ c. judge_dir s1.vd (entry (get_block_ptr c) i) ≡ false) (sym same) new.is_file)
      (my_open-Opens s1 filename fname ename i short parts has.counts has.hit)
      (λ s' j o.
        one_block-IsOpen s1 s' i j b o
          (new-Chain s1.vd (here s) (here s1) i b same below new.allocated new.block) above
          (λ e. ne (e ∙ same)) has.dir.block_low has.dir.block_high
          (subst (λ c. next_num s1.vd c ≢ free_mark) (sym same)
            λ e. taken (sym (new.other_blocks (here s) ready.dir.block_high (λ z. ne (sym z))) ∙ e))
          ready.high)
      t small

-- In a directory that counts its entries, has the name in no unused one and whose block is not
-- free, with a free entry and a free block, `createfile` of a name that fits, has less than 12
-- bytes and is that of no data file there returns 0. `my_open` then opens the file, unless no slot
-- is free or its path has 80 bytes or more, and after a rewrite of it with any text `my_read` prints exactly that text, unless the
-- write returned 1 with no block left free.
pub my_read-createfile :
    (s : Fs) (filename fname ename : List ℕ) (i : ℕ) (text : List ℕ)
    → InDirectory s
    → next_num s.vd (here s) ≢ free_mark
    → Counts s.vd (get_block_ptr (here s)) (Fcb.len (current s).fcb 0 / 32)
    → Cleared s.vd (get_block_ptr (here s)) fname ename false 30 2
    → length filename < 12
    → split_name filename ≡ name_ext fname ename
    → IsName fname ename
    → first_wanted s.vd (get_block_ptr (here s)) fname ename false 30 2 ≡ not_found
    → get_next_fcb s.vd (get_block_ptr (here s)) ≡ some i
    → get_next_vhd_block s.vd ≢ end_mark
    → IsText text
    → length text < 2147483648
    → (s1 : Fs) × (createfile s filename false ≡ some (0, s1))
      × Usable s1 filename text (my_open s1 filename)
my_read-createfile s filename fname ename i text dir taken counts cleared short parts names fresh
      slot room t small =
    let (s1, made, new) =
      createfile-NewFile s filename fname ename i dir counts cleared parts names fresh slot room in
    let ready = rewound-Ready s fname ename false i dir counts cleared fresh slot in
    let block = sym (rewound-here s) in
    (
      s1,
      made,
      NewFile-Usable (rewound s) s1 filename fname ename i (get_next_vhd_block s.vd) text ready
          (subst (λ c. next_num s.vd c ≢ free_mark) block taken)
          (subst (λ c. get_next_vhd_block s.vd ≢ c) block (block-other s.vd (here s) room taken))
          short parts (block-ge s.vd room) (block-lt s.vd room) t small new,
    )
