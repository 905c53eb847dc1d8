-- ===== src/FileSystem/Open/Closed.antt =====
-- What `my_close` leaves.
use hdu_os_experiment.Common.{
  ℕ, zero, suc, ◌+◌, ◌≤◌, ◌<◌, ◌≡◌, ◌≢◌, refl, arith, true, false, Option, none, some, ◌==◌,
  Bool-cases, inl, inr, ==→eq, le→ltb, eq→==, ne→==, sym, ap, ◌∙◌,
}
use hdu_os_experiment.Memory.Laws.{Outside, memcpy_in, memcpy_out}
use hdu_os_experiment.FileSystem.Fcb
use hdu_os_experiment.FileSystem.Fat.{get_block_ptr}
use hdu_os_experiment.FileSystem.Dir.{entry}
use hdu_os_experiment.FileSystem.Oft.{
  Fs, Oft, set_oft, init_oft, init_fdt, skip, scan_parent, find_parent_oft,
}
use hdu_os_experiment.FileSystem.Open.{write_back, my_close}

-- What a scan from `i` over `left` slots for the block `pdf` gives: the first whose file begins
-- there.
abbrev pub FirstOn : (ℕ → Oft) → ℕ → ℕ → ℕ → Option ℕ → Type 0
FirstOn l pdf i left none = (j : ℕ) → i ≤ j → j < i + left → Fcb.s_block (l j).fcb 0 ≢ pdf
FirstOn l pdf i left (some k) =
    (i ≤ k)
    × (k < i + left)
    × (Fcb.s_block (l k).fcb 0 ≡ pdf)
    × ((j : ℕ) → i ≤ j → j < k → Fcb.s_block (l j).fcb 0 ≢ pdf)

FirstOn-suc :
    (l : ℕ → Oft) (pdf i left : ℕ) (r : Option ℕ)
    → Fcb.s_block (l i).fcb 0 ≢ pdf
    → FirstOn l pdf (i + 1) left r
    → FirstOn l pdf i (suc left) r
FirstOn-suc l pdf i left none other h = λ j lo hi e. elim (Bool-cases (j == i)) [
  | inl at ↦ ground arith
  | inr past ↦ h j (ground arith) (omega arith) e
]
FirstOn-suc l pdf i left (some k) other h = (
  omega arith,
  omega arith,
  h.2,
  λ j lo hi e. elim (Bool-cases (j == i)) [
    | inl at ↦ ground arith
    | inr past ↦ h.3 j (ground arith) hi e
  ],
)

scan_parent-FirstOn :
    (left : ℕ) (l : ℕ → Oft) (pdf i : ℕ) → FirstOn l pdf i left (scan_parent left l pdf i)
unfolding scan_parent
scan_parent-FirstOn zero l pdf i = λ j lo hi. absurd (omega arith)
scan_parent-FirstOn (suc left) l pdf i = elim (Bool-cases (Fcb.s_block (l i).fcb 0 == pdf)) [
  | inl hit ↦ rw hit (omega arith, omega arith, ==→eq _ _ hit, λ j lo hi. absurd (omega arith))
  | inr other ↦ rw other (
      FirstOn-suc l pdf i left (scan_parent left l pdf (i + 1)) (ground arith)
        (scan_parent-FirstOn left l pdf (i + 1)))
]

-- The address of the FCB of slot `i` in the directory in slot `pi`.
abbrev pub home : Fs → ℕ → ℕ → ℕ
home s i pi =
    entry (get_block_ptr (Fcb.s_block (s.oft_list pi).fcb 0)) (s.oft_list i).fdt.fd_entry_no

-- The file of slot `i` is closed, and its FCB is on the disk.
pub record IsClosed (s s' : Fs) (i pi : ℕ) : Type 0 where
  pub free : (s'.oft_list i).is_use ≡ false
  pub not_changed : (s'.oft_list i).fdt.is_upate ≡ false
  pub other_slots : (j : ℕ) → j ≢ i → s'.oft_list j ≡ s.oft_list j
  pub current : s'.curr_oft_index ≡ pi
  pub saved :
      (s.oft_list i).fdt.is_upate ≡ true
      → (k : ℕ) → k < 32
      → s'.vd (home s i pi + k) ≡ (s.oft_list i).fcb k
  pub kept : (s.oft_list i).fdt.is_upate ≡ false → s'.vd ≡ s.vd
  pub elsewhere : (a : ℕ) → Outside a (home s i pi) 32 → s'.vd a ≡ s.vd a

-- What `my_close` returned, and the state after it.
abbrev pub Closes : Fs → ℕ → Option ℕ × Fs → Type 0
Closes s i (none, s') = (s' ≡ s) × FirstOn s.oft_list (s.oft_list i).fdt.pdf_block_no 0 10 none
Closes s i (some pi, s') =
    FirstOn s.oft_list (s.oft_list i).fdt.pdf_block_no 0 10 (some pi) × IsClosed s s' i pi

write_back_out : (s : Fs) (i pi a : ℕ) → Outside a (home s i pi) 32 → write_back s i pi a ≡ s.vd a
unfolding write_back
write_back_out s i pi a h = elim (Bool-cases (s.oft_list i).fdt.is_upate) [
  | inl new ↦ rw new (memcpy_out s.vd (home s i pi) (s.oft_list i).fcb 0 32 a h)
  | inr old ↦ rw old refl
]

-- The state after a file is closed.
abbrev closed : Fs → ℕ → ℕ → Fs
closed s i pi = record s {
  vd = write_back s i pi;
  oft_list = set_oft s.oft_list i (init_oft (s.oft_list i) (s.clock 0));
  curr_oft_index = pi;
  clock = skip 1 s.clock;
}

closed-IsClosed : (s : Fs) (i pi : ℕ) → IsClosed s (closed s i pi) i pi
unfolding set_oft init_oft init_fdt write_back
closed-IsClosed s i pi = record {
  free = rw (eq→== i i refl) refl;
  not_changed = rw (eq→== i i refl) refl;
  other_slots = λ j ne. rw (ne→== i j λ e. ne (sym e)) refl;
  current = refl;
  saved = λ new k h. rw new (
      memcpy_in s.vd (home s i pi) (s.oft_list i).fcb 0 32 k h
      ∙ ap (s.oft_list i).fcb (omega arith));
  kept = λ old. rw old refl;
  elsewhere = write_back_out s i pi;
}

Closes-scan :
    (s : Fs) (i : ℕ) (r : Option ℕ)
    → FirstOn s.oft_list (s.oft_list i).fdt.pdf_block_no 0 10 r
    → Closes s i (elim r [ none ↦ (none, s) | some pi ↦ (some pi, closed s i pi) ])
Closes-scan s i none h = (refl, h)
Closes-scan s i (some pi) h = (h, closed-IsClosed s i pi)

-- `my_close` of a slot returns the first slot whose file begins at the block of the slot's directory,
-- and makes it the current one. The slot is free then and no other has changed; its FCB is written
-- to its entry in that directory if the file was written to, and nothing else on the disk changes.
-- With no such slot it returns `NOT_FOUND` and changes nothing.
pub my_close-Closes : (s : Fs) (i : ℕ) → i < 10 → Closes s i (my_close s i)
unfolding my_close find_parent_oft
my_close-Closes s i h =
    rw (le→ltb 10 i (omega arith))
      (Closes-scan s i _ (scan_parent-FirstOn 10 s.oft_list (s.oft_list i).fdt.pdf_block_no 0))
