-- ===== src/FileSystem/Open/Stack.antt =====
-- The slots in use are a stack: each is on a file of the directory in the slot below it, down to the
-- root directory in slot 0.
use hdu_os_experiment.Common.{
  ℕ, suc, ◌+◌, ◌≤◌, ◌<◌, ◌≡◌, ◌≢◌, arith, true, false, Option, none, some, ◌==◌, Bool-cases, inl,
  inr, sym, ◌∙◌,
}
use hdu_os_experiment.FileSystem.Fcb
use hdu_os_experiment.FileSystem.Oft.{Fs, Oft}
use hdu_os_experiment.FileSystem.Oft.Slots.{FirstSlot}
use hdu_os_experiment.FileSystem.Open.{my_close}
use hdu_os_experiment.FileSystem.Open.Closed.{FirstOn, Closes, my_close-Closes}

abbrev pub block_of : (ℕ → Oft) → ℕ → ℕ
block_of l j = Fcb.s_block (l j).fcb 0

-- The slots up to `d` are a path of directories from the root, and the others are free.
pub record IsStack (l : ℕ → Oft) (d : ℕ) : Type 0 where
  pub depth : d < 10
  pub used : (j : ℕ) → j ≤ d → (l j).is_use ≡ true
  pub free : (j : ℕ) → d < j → j < 10 → (l j).is_use ≡ false
  pub link : (j : ℕ) → j < d → (l (j + 1)).fdt.pdf_block_no ≡ block_of l j
  pub apart : (j k : ℕ) → j < k → k ≤ d → block_of l j ≢ block_of l k

module _ (l l' : ℕ → Oft) (d : ℕ) where
  -- The top slot is given back.
  pub IsStack-pop :
      IsStack l (suc d)
      → (l' (suc d)).is_use ≡ false
      → ((j : ℕ) → j ≢ suc d → l' j ≡ l j)
      → IsStack l' d
  IsStack-pop st freed same = record {
    depth = omega (arith, st.depth);
    used = λ j h. rw (same j (omega arith)) (st.used j (omega arith));
    free = λ j lo hi. elim (Bool-cases (j == suc d)) [
      | inl at ↦ rw (top j at) freed
      | inr above ↦ rw (same j (ground arith)) (st.free j (ground arith) hi)
    ];
    link = λ j h. rw (same (j + 1) (omega arith), same j (omega arith)) (st.link j (omega arith));
    apart =
        λ j k h h'. rw (same j (omega arith), same k (omega arith)) (st.apart j k h (omega arith));
  }
    where
      top : (j : ℕ) → (j == suc d) ≡ true → j ≡ suc d
      top j e = ground arith

  -- A slot is taken on top, for a file of the directory there on a block of its own.
  pub IsStack-push :
      IsStack l d
      → suc d < 10
      → (l' (suc d)).is_use ≡ true
      → (l' (suc d)).fdt.pdf_block_no ≡ block_of l d
      → ((j : ℕ) → j ≤ d → block_of l j ≢ block_of l' (suc d))
      → ((j : ℕ) → j ≢ suc d → l' j ≡ l j)
      → IsStack l' (suc d)
  IsStack-push st room taken on_top fresh same = record {
    depth = room;
    used = λ j h. elim (Bool-cases (j == suc d)) [
      | inl at ↦ rw (top j at) taken
      | inr below ↦ rw (same j (ground arith)) (st.used j (ground arith))
    ];
    free = λ j lo hi. rw (same j (omega arith)) (st.free j (omega arith) hi);
    link = λ j h. elim (Bool-cases (j == d)) [
      | inl at ↦ rw (at_d j at, plus_one, same d (omega arith)) on_top
      | inr below ↦
          rw (same (j + 1) (ground arith), same j (omega arith)) (st.link j (ground arith))
    ];
    apart = λ j k h h'. elim (Bool-cases (k == suc d)) [
      | inl at ↦ rw (top k at, same j (ground arith)) (fresh j (ground arith))
      | inr below ↦
          rw (same j (ground arith), same k (ground arith)) (st.apart j k h (ground arith))
    ];
  }
    where
      top : (j : ℕ) → (j == suc d) ≡ true → j ≡ suc d
      top j e = ground arith

      at_d : (j : ℕ) → (j == d) ≡ true → j ≡ d
      at_d j e = ground arith

      plus_one : d + 1 ≡ suc d
      plus_one = omega arith

-- On a stack that has room the next slot is the one above the top; on a full one there is none.
pub FirstSlot-IsStack :
    (l : ℕ → Oft) (d k : ℕ) → IsStack l d → FirstSlot l 0 10 (some k) → k ≡ suc d
FirstSlot-IsStack l d k st h = elim (Bool-cases (k == suc d)) [
  | inl at ↦ ground arith
  | inr other ↦ ground (arith, st.depth, st.used k, st.free (suc d), h.3 (suc d))
]

IsStack-link :
    (l : ℕ → Oft) (d : ℕ) → IsStack l (suc d) → (l (suc d)).fdt.pdf_block_no ≡ block_of l d
IsStack-link l d st = rw plus_one at (st.link d (omega arith))
  where
    plus_one : d + 1 ≡ suc d
    plus_one = omega arith

-- The slot of the directory of the top slot is the one below it.
FirstOn-IsStack :
    (l : ℕ → Oft) (d k : ℕ)
    → IsStack l (suc d)
    → FirstOn l (l (suc d)).fdt.pdf_block_no 0 10 (some k)
    → k ≡ d
FirstOn-IsStack l d k st h = elim (Bool-cases (k == d)) [
  | inl at ↦ ground arith
  | inr other ↦ ground (arith, IsStack-link l d st, st.apart k d, h.2, h.3 d)
]

-- What a close of the top slot, `d + 1`, leaves.
abbrev pub Popped : ℕ → Option ℕ × Fs → Type 0
Popped d (none, s') = ⊥
Popped d (some pi, s') = (pi ≡ d) × (s'.curr_oft_index ≡ d) × IsStack s'.oft_list d

Popped-Closes :
    (s : Fs) (d : ℕ) (r : Option ℕ × Fs)
    → IsStack s.oft_list (suc d)
    → Closes s (suc d) r
    → Popped d r
Popped-Closes s d (none, s') st h =
    h.1 d (omega arith) (omega (arith, st.depth)) (sym (IsStack-link s.oft_list d st))
Popped-Closes s d (some pi, s') st h =
    let same = FirstOn-IsStack s.oft_list d pi st h.0 in
    (same, h.1.current ∙ same, IsStack-pop s.oft_list s'.oft_list d st h.1.free h.1.other_slots)

-- With the slots a stack, `my_close` of the top one but the root returns the slot below it, makes it
-- the current one, and leaves a stack.
pub my_close-Popped : (s : Fs) (d : ℕ) → IsStack s.oft_list (suc d) → Popped d (my_close s (suc d))
my_close-Popped s d st =
    Popped-Closes s d _ st (my_close-Closes s (suc d) (omega (arith, st.depth)))
