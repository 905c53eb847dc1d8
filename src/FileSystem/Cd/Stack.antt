-- ===== src/FileSystem/Cd/Stack.antt =====
-- The operations that open and leave files keep the slots a stack.
use hdu_os_experiment.Common.{
  ℕ, suc, ◌+◌, ◌/◌, ◌≤◌, ◌<◌, ◌≡◌, ◌≢◌, ◌⊎◌, refl, arith, false, Option, none, some, List, ◌==◌,
  Bool-cases, inl, inr, sym, ne→==, eq→==, ◌∙◌, ap, length,
}
use hdu_os_experiment.Memory.{Mem, get_u16}
use hdu_os_experiment.Memory.Laws.{memcpy_in, set_u16_ne}
use hdu_os_experiment.Memory.Token.{split_name, name_ext}
use hdu_os_experiment.FileSystem.Fcb
use hdu_os_experiment.FileSystem.Fcb.{view_fcb_time}
use hdu_os_experiment.FileSystem.Fat.{get_block_ptr}
use hdu_os_experiment.FileSystem.Dir.{entry, found}
use hdu_os_experiment.FileSystem.Dir.Lookup.{Counts, first_wanted}
use hdu_os_experiment.FileSystem.Oft.{DirName, in_dir_name, Fs, Oft, set_oft, get_next_oft, skip}
use hdu_os_experiment.FileSystem.Oft.Slots.{FirstSlot, Taken, get_next_oft-Taken}
use hdu_os_experiment.FileSystem.Oft.Names.{Named, in_dir_name-Named}
use hdu_os_experiment.FileSystem.Create.File.{current, here}
use hdu_os_experiment.FileSystem.Open.{my_open, opened_path}
use hdu_os_experiment.FileSystem.Open.Opened.{IsOpened, Opens, my_open-Opens}
use hdu_os_experiment.FileSystem.Open.Stack.{IsStack, IsStack-push, block_of, FirstSlot-IsStack}
use hdu_os_experiment.FileSystem.Cd.{
  done, failure, Flag, entered, entered_path, enter_slot, enter_child,
}

-- The entry of index `k` of the current directory.
abbrev pub entry_here : Fs → ℕ → ℕ
entry_here s k = entry (get_block_ptr (here s)) k

-- The file of entry `k` is on none of the blocks that the files in use begin with.
abbrev pub Fresh : Fs → ℕ → Type 0
Fresh s k =
    (j : ℕ) → j ≤ s.curr_oft_index → block_of s.oft_list j ≢ Fcb.s_block s.vd (entry_here s k)

-- The slot above the top one is the current one, and the slots are a stack.
abbrev pub Pushed : Fs → Fs → Type 0
Pushed s s' =
    (s'.curr_oft_index ≡ suc s.curr_oft_index) × IsStack s'.oft_list (suc s.curr_oft_index)

full-absurd : (l : ℕ → Oft) (d : ℕ) → IsStack l d → suc d < 10 → FirstSlot l 0 10 none → ⊥
full-absurd l d st room h = ground (arith, st.free (suc d), h (suc d))

opened-block :
    (s s' : Fs) (j k : ℕ)
    → IsOpened s s' j k
    → block_of s'.oft_list j ≡ Fcb.s_block s.vd (entry_here s k)
unfolding Fcb.s_block get_u16
opened-block s s' j k o = ground (arith, o.copied 20, o.copied 21)

Pushed-IsOpened :
    (s s' : Fs) (j k : ℕ)
    → IsStack s.oft_list s.curr_oft_index
    → suc s.curr_oft_index < 10
    → Fresh s k
    → FirstSlot s.oft_list 0 10 (some j)
    → IsOpened s s' j k
    → Pushed s s'
Pushed-IsOpened s s' j k st room fresh slot o =
    let top : j ≡ suc s.curr_oft_index = FirstSlot-IsStack s.oft_list s.curr_oft_index j st slot in
    let o' : IsOpened s s' (suc s.curr_oft_index) k = rw top at o in
    (
      o'.is_current,
      IsStack-push s.oft_list s'.oft_list s.curr_oft_index st room o'.taken o'.parent
          (λ x h e. fresh x h (e ∙ opened-block s s' (suc s.curr_oft_index) k o')) o'.other_slots,
    )

Pushed-Opens :
    (s : Fs) (k : ℕ) (filename : List ℕ) (r : Option (ℕ × Fs))
    → IsStack s.oft_list s.curr_oft_index
    → suc s.curr_oft_index < 10
    → Fresh s k
    → length (opened_path s.vd (current s) k filename) < 80
    → Opens s k filename r
    → (s' : Fs) × (r ≡ some (0, s')) × Pushed s s'
Pushed-Opens s k filename none st room fresh fits h = absurd (omega (arith, fits, h))
Pushed-Opens s k filename (some (code, s')) st room fresh fits (inl h) =
    (s', rw h.0 refl, Pushed-IsOpened s s' h.1.0 k st room fresh h.1.1 h.1.2)
Pushed-Opens s k filename (some (code, s')) st room fresh fits (inr h) =
    absurd (full-absurd s.oft_list s.curr_oft_index st room h.2)

-- With the slots a stack that has room, and a data file whose path has less than 80 bytes, on a block
-- that no open file begins with, `my_open` takes the slot above the top one and leaves a stack.
pub my_open-Pushed :
    (s : Fs) (filename fname ename : List ℕ) (k : ℕ)
    → length filename < 12
    → split_name filename ≡ name_ext fname ename
    → Counts s.vd (get_block_ptr (here s)) (Fcb.len (current s).fcb 0 / 32)
    → first_wanted s.vd (get_block_ptr (here s)) fname ename false 30 2 ≡ found k
    → IsStack s.oft_list s.curr_oft_index
    → suc s.curr_oft_index < 10
    → Fresh s k
    → length (opened_path s.vd (current s) k filename) < 80
    → (s' : Fs) × (my_open s filename ≡ some (0, s')) × Pushed s s'
my_open-Pushed s filename fname ename k short parts counts hit st room fresh fits =
    Pushed-Opens s k filename _ st room fresh fits
      (my_open-Opens s filename fname ename k short parts counts hit)

-- What `enter_child` gave: the directory is the current one, on top of the stack, with the FCB as it
-- is on the disk; or the stack is full, and nothing has changed. With `none` the path has run over
-- the end of the array.
abbrev pub Enters : Fs → ℕ → List ℕ → Option (Flag × Fs) → Type 0
Enters s k dirname none = 80 ≤ length (entered_path (current s) dirname)
Enters s k dirname (some (flag, s')) =
    ((flag ≡ done)
      × Pushed s s'
      × (s'.vd ≡ view_fcb_time s.vd (entry_here s k) (s.clock 0))
      × ((x : ℕ) → x < 32 → (s'.oft_list s'.curr_oft_index).fcb x ≡ s'.vd (entry_here s k + x)))
    ⊎ ((flag ≡ failure) × (s' ≡ s) × (s.curr_oft_index ≡ 9))

module _ (s : Fs) (k : ℕ) (dirname : List ℕ) (l : ℕ → Oft) (path : DirName) where
  abbrev viewed : Mem
  viewed = view_fcb_time s.vd (entry_here s k) (s.clock 0)

  abbrev slot : ℕ → Oft
  slot j = entered viewed (current s) (l j) k path

  slot-fcb : (j x : ℕ) → x < 32 → (slot j).fcb x ≡ viewed (entry_here s k + x)
  unfolding entered
  slot-fcb j x h =
      ap (slot j).fcb (the_same x) ∙ memcpy_in (l j).fcb 0 viewed (entry_here s k) 32 x h
    where
      the_same : (x : ℕ) → x ≡ 0 + x
      the_same x = omega arith

  slot-block : (j : ℕ) → Fcb.s_block (slot j).fcb 0 ≡ Fcb.s_block s.vd (entry_here s k)
  unfolding Fcb.s_block get_u16 view_fcb_time
  slot-block j = ground (
    arith,
    slot-fcb j 20,
    slot-fcb j 21,
    set_u16_ne s.vd (entry_here s k + 18) (Fcb.current_date (s.clock 0)) (entry_here s k + 20),
    set_u16_ne s.vd (entry_here s k + 18) (Fcb.current_date (s.clock 0)) (entry_here s k + 21),
  )

  abbrev child : ℕ → Fs
  child j = record s {
    vd = viewed;
    oft_list = set_oft l j (slot j);
    curr_oft_index = j;
    clock = skip 1 s.clock;
  }

  child-Enters :
      (j : ℕ)
      → IsStack s.oft_list s.curr_oft_index
      → Fresh s k
      → j ≡ suc s.curr_oft_index
      → j < 10
      → ((x : ℕ) → x ≢ j → l x ≡ s.oft_list x)
      → Enters s k dirname (some (done, child j))
  unfolding set_oft
  child-Enters j st fresh top room same =
      inl (refl, (top, pushed), refl, λ x h. rw (eq→== j j refl) (slot-fcb j x h))
    where
      at_top : set_oft l j (slot j) (suc s.curr_oft_index) ≡ slot j
      at_top = rw (sym top, eq→== j j refl) refl

      below : (x : ℕ) → x ≢ suc s.curr_oft_index → set_oft l j (slot j) x ≡ s.oft_list x
      below x ne = rw (ne→== j x λ e. ne (sym e ∙ top)) (same x λ e. ne (e ∙ top))

      pushed : IsStack (set_oft l j (slot j)) (suc s.curr_oft_index)
      pushed =
          IsStack-push s.oft_list (set_oft l j (slot j)) s.curr_oft_index st
            (omega (arith, room, top)) (rw at_top (unfold entered in refl))
            (rw at_top (unfold entered in refl))
            (λ x h e. fresh x h (e ∙ (rw at_top (slot-block j)))) below

Enters-enter_slot :
    (s : Fs) (k j : ℕ) (dirname : List ℕ) (l : ℕ → Oft) (path : Option DirName)
    → IsStack s.oft_list s.curr_oft_index
    → Fresh s k
    → Taken s.oft_list (some (j, l))
    → Named (entered_path (current s) dirname) path
    → Enters s k dirname (enter_slot s k j l path)
Enters-enter_slot s k j dirname l none st fresh h named = named
Enters-enter_slot s k j dirname l (some path) st fresh h named =
    child-Enters s k dirname l path j st fresh
      (FirstSlot-IsStack s.oft_list s.curr_oft_index j st h.0) h.0.1 h.2

Enters-Taken :
    (s : Fs) (k : ℕ) (dirname : List ℕ) (r : Option (ℕ × (ℕ → Oft)))
    → IsStack s.oft_list s.curr_oft_index
    → Fresh s k
    → Taken s.oft_list r
    → Enters s k dirname (elim r [
      | none ↦ some (failure, s)
      | some (j, l) ↦ enter_slot s k j l (in_dir_name (entered_path (current s) dirname))
    ])
Enters-Taken s k dirname none st fresh h = inr (
  refl,
  refl,
  elim (Bool-cases (s.curr_oft_index == 9)) [
    | inl at ↦ ground arith
    | inr low ↦ absurd (full-absurd s.oft_list s.curr_oft_index st (ground (arith, st.depth)) h)
  ],
)
Enters-Taken s k dirname (some (j, l)) st fresh h =
    Enters-enter_slot s k j dirname l _ st fresh h (in_dir_name-Named _)

-- With the slots a stack, and a directory on a block that no open file begins with, the last branch
-- of `open_curpath` enters it: its slot is the one above the top, it is the current one, the date of
-- access on the disk is new, the slot has that FCB, and the slots are a stack. If the stack has
-- ten slots already it fails and changes nothing. Only if the path of the directory has 80 bytes or
-- more is there no result.
pub enter_child-Enters :
    (s : Fs) (k : ℕ) (dirname : List ℕ)
    → IsStack s.oft_list s.curr_oft_index
    → Fresh s k
    → Enters s k dirname (enter_child s k dirname)
unfolding enter_child
enter_child-Enters s k dirname st fresh =
    Enters-Taken s k dirname (get_next_oft s.oft_list) st fresh (get_next_oft-Taken s.oft_list)
