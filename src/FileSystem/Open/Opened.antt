-- ===== src/FileSystem/Open/Opened.antt =====
-- What `my_open` of a data file in the current directory gives.
use hdu_os_experiment.Common.{
  ℕ, ◌+◌, ◌/◌, ◌≤◌, ◌<◌, ◌≡◌, ◌≢◌, ◌⊎◌, ◌∙◌, ap, sym, refl, arith, true, false, Option, none, some,
  List, length, le→ltb, eq→==, ne→==, inl, inr,
}
use hdu_os_experiment.Memory.Laws.{memcpy_in}
use hdu_os_experiment.Memory.Token.{split_name, name_ext}
use hdu_os_experiment.FileSystem.Fcb
use hdu_os_experiment.FileSystem.Fat.{get_block_ptr}
use hdu_os_experiment.FileSystem.Dir.{entry, found}
use hdu_os_experiment.FileSystem.Dir.Lookup.{Counts, first_wanted, get_index_of_fcb-first_wanted}
use hdu_os_experiment.FileSystem.Oft.{
  DirName, in_dir_name, Fs, Oft, skip, set_oft, init_oft, init_fdt, get_next_oft,
}
use hdu_os_experiment.FileSystem.Oft.Slots.{FirstSlot, Taken, get_next_oft-Taken}
use hdu_os_experiment.FileSystem.Create.File.{current, here}
use hdu_os_experiment.FileSystem.Oft.Names.{Named, in_dir_name-Named}
use hdu_os_experiment.FileSystem.Open.{
  opened_path, fill_slot, opened, open_named, finish_open, my_open,
}

-- In `s'` slot `j` has the file of entry `k` of the current directory of `s`.
pub record IsOpened (s s' : Fs) (j k : ℕ) : Type 0 where
  pub taken : (s'.oft_list j).is_use ≡ true
  pub copied :
      (x : ℕ) → x < 32 → (s'.oft_list j).fcb x ≡ s.vd (entry (get_block_ptr (here s)) k + x)
  pub parent : (s'.oft_list j).fdt.pdf_block_no ≡ here s
  pub place : (s'.oft_list j).fdt.fd_entry_no ≡ k
  pub pointer : (s'.oft_list j).fdt.file_ptr ≡ 0
  pub not_changed : (s'.oft_list j).fdt.is_upate ≡ false
  pub other_slots : (x : ℕ) → x ≢ j → s'.oft_list x ≡ s.oft_list x
  pub disk : s'.vd ≡ s.vd
  pub is_current : s'.curr_oft_index ≡ j

-- What `my_open` returned, and the state after it. With `none` the path has run over the end of the
-- array.
abbrev pub Opens : Fs → ℕ → List ℕ → Option (ℕ × Fs) → Type 0
Opens s k filename none = 80 ≤ length (opened_path s.vd (current s) k filename)
Opens s k filename (some (code, s')) =
    ((code ≡ 0) × ((j : ℕ) × FirstSlot s.oft_list 0 10 (some j) × IsOpened s s' j k))
    ⊎ ((code ≡ 1) × (s' ≡ s) × FirstSlot s.oft_list 0 10 none)

module _ (s : Fs) (k j : ℕ) (l : ℕ → Oft) (path : DirName) where
  abbrev slot : Oft
  slot = opened s.vd (current s) (init_oft (l j) (s.clock 0)) k path

  abbrev after : Fs
  after = record s { oft_list = set_oft l j slot; curr_oft_index = j; clock = skip 1 s.clock }

  after-slot : set_oft l j slot j ≡ slot
  unfolding set_oft
  after-slot = rw (eq→== j j refl) refl

  slot-fcb : (x : ℕ) → x < 32 → slot.fcb x ≡ s.vd (entry (get_block_ptr (here s)) k + x)
  unfolding opened
  slot-fcb x h =
      ap slot.fcb (the_same x) ∙ memcpy_in _ 0 s.vd (entry (get_block_ptr (here s)) k) 32 x h
    where
      the_same : (x : ℕ) → x ≡ 0 + x
      the_same x = omega arith

  after-IsOpened : ((x : ℕ) → x ≢ j → l x ≡ s.oft_list x) → IsOpened s after j k
  unfolding opened init_oft init_fdt set_oft
  after-IsOpened others = record {
    taken = rw (eq→== j j refl) refl;
    copied = λ x h. rw (eq→== j j refl) (slot-fcb x h);
    parent = rw (eq→== j j refl) refl;
    place = rw (eq→== j j refl) refl;
    pointer = rw (eq→== j j refl) refl;
    not_changed = rw (eq→== j j refl) refl;
    other_slots = λ x ne. rw (ne→== j x λ e. ne (sym e)) (others x ne);
    disk = refl;
    is_current = refl;
  }

Opens-fill_slot :
    (s : Fs) (k j : ℕ) (l : ℕ → Oft) (filename : List ℕ) (path : Option DirName)
    → Taken s.oft_list (some (j, l))
    → Named (opened_path s.vd (current s) k filename) path
    → Opens s k filename (finish_open (fill_slot s (current s) k j l path))
Opens-fill_slot s k j l filename none h named = named
Opens-fill_slot s k j l filename (some path) h named =
    inl (refl, (j, h.0, after-IsOpened s k j l path h.2))

Opens-Taken :
    (s : Fs) (k : ℕ) (filename : List ℕ) (r : Option (ℕ × (ℕ → Oft)))
    → Taken s.oft_list r
    → Opens s k filename (
        finish_open (elim r [
          | none ↦ some (none, s)
          | some (j, l) ↦
              fill_slot s (current s) k j l (in_dir_name (opened_path s.vd (current s) k filename))
        ]))
Opens-Taken s k filename none h = inr (refl, refl, h)
Opens-Taken s k filename (some (j, l)) h =
    Opens-fill_slot s k j l filename _ h (in_dir_name-Named _)

-- In a directory that counts its entries, `my_open` of a name of less than 12 bytes that its entry `k`
-- is the first to have returns 0: the first free slot then has a copy of the FCB of that entry and
-- the place it came from, its file pointer is 0, it is the current one, and no other slot and
-- nothing on the disk has changed. If all slots are in use it returns 1 and changes nothing. Only if
-- the path of the file has 80 bytes or more is there no result.
pub my_open-Opens :
    (s : Fs) (filename fname ename : List ℕ) (k : ℕ)
    → length filename < 12
    → split_name filename ≡ name_ext fname ename
    → Counts s.vd (get_block_ptr (here s)) (Fcb.len (current s).fcb 0 / 32)
    → first_wanted s.vd (get_block_ptr (here s)) fname ename false 30 2 ≡ found k
    → Opens s k filename (my_open s filename)
unfolding my_open open_named
my_open-Opens s filename fname ename k short parts counts hit =
    rw
      (
        le→ltb 11 (length filename) (omega arith),
        parts,
        open_named,
        get_index_of_fcb-first_wanted s.vd (current s).fcb 0 fname ename false counts,
        hit,
      )
      (Opens-Taken s k filename (get_next_oft s.oft_list) (get_next_oft-Taken s.oft_list))
