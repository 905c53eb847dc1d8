-- ===== src/CharDriver/Session.antt =====
-- Processes with the device open, in any order of their calls: every position stays in the device,
-- and no byte outside it is written.
use hdu_os_experiment.Common.{
  ℕ, ◌≤◌, ◌≡◌, ◌∙◌, refl, arith, Option, none, some, List, length, if◌then◌else◌, ◌==◌, Bool-cases,
  inl, inr,
}
use hdu_os_experiment.Memory.{Mem}
use hdu_os_experiment.CharDriver.{UserCopy, char_dev_llseek, char_dev_read, char_dev_write}
use hdu_os_experiment.CharDriver.Seek.{char_dev_llseek-bounds}
use hdu_os_experiment.CharDriver.Transfer.{
  Copies, DidRead, DidWrite, char_dev_read-DidRead, char_dev_write-DidWrite,
}

-- The device's memory, which all open files share, and the position of each open file.
pub record State : Type 0 where
  pub mem : Mem
  pub f_pos : ℕ → ℕ

abbrev pub set_pos : (ℕ → ℕ) → ℕ → ℕ → ℕ → ℕ
set_pos f_pos file pos k = if k == file then pos else f_pos k

-- One call of one process. The position of a file that is opened is 0.
pub data Step (u : UserCopy) : State → State → Type 0 where
  opens : {s : State} (file : ℕ) → Step u s (record s { f_pos = set_pos s.f_pos file 0 })
  seek :
      {s : State} (file offset way : ℕ)
      → Step u s
          (record s { f_pos = set_pos s.f_pos file (char_dev_llseek (s.f_pos file) offset way).1 })
  read :
      {s : State} (file count : ℕ)
      → Step u s
          (record s { f_pos = set_pos s.f_pos file (char_dev_read u s.mem (s.f_pos file) count).2 })
  write :
      {s : State} (file : ℕ) (buff : List ℕ)
      → Step u s (record s {
        mem = (char_dev_write u s.mem (s.f_pos file) buff (length buff)).1;
        f_pos = set_pos s.f_pos file (char_dev_write u s.mem (s.f_pos file) buff (length buff)).2;
      })

pub data Steps (u : UserCopy) : State → State → Type 0 where
  done : {s : State} → Steps u s s
  next : {s s' s'' : State} → Step u s s' → Steps u s' s'' → Steps u s s''

-- Every position is in the device.
abbrev pub InDevice : State → Type 0
InDevice s = (file : ℕ) → s.f_pos file ≤ 512

-- Nothing past the end of the device has changed.
abbrev pub Kept : State → State → Type 0
Kept s s' = (x : ℕ) → 512 ≤ x → s'.mem x ≡ s.mem x

set_pos-bounds :
    (f_pos : ℕ → ℕ) (file pos : ℕ)
    → ((k : ℕ) → f_pos k ≤ 512)
    → pos ≤ 512
    → (k : ℕ) → set_pos f_pos file pos k ≤ 512
set_pos-bounds f_pos file pos h p k = elim (Bool-cases (k == file)) [
  | inl at ↦ rw at p
  | inr other ↦ rw other (h k)
]

DidRead-bounds :
    (mem : Mem) (offset count : ℕ) (r : Option ℕ × List ℕ × ℕ)
    → offset ≤ 512
    → DidRead mem offset count r
    → r.2 ≤ 512
DidRead-bounds mem offset count (none, buff, offp) h d = omega arith
DidRead-bounds mem offset count (some n, buff, offp) h d = ground arith

DidWrite-bounds :
    (mem : Mem) (offset : ℕ) (buff : List ℕ) (count : ℕ) (r : Option ℕ × Mem × ℕ)
    → offset ≤ 512
    → DidWrite mem offset buff count r
    → (r.2 ≤ 512) × ((x : ℕ) → 512 ≤ x → r.1 x ≡ mem x)
DidWrite-bounds mem offset buff count (none, mem', offp) h d =
    (omega arith, λ x past. d.0 x (ground arith))
DidWrite-bounds mem offset buff count (some n, mem', offp) h d =
    (ground arith, λ x past. d.0 x (ground arith))

Step-InDevice :
    {u : UserCopy} {s s' : State} → Copies u → InDevice s → Step u s s' → InDevice s' × Kept s s'
Step-InDevice c h (opens {s} file) = (set_pos-bounds s.f_pos file 0 h (omega arith), λ x past. refl)
Step-InDevice c h (seek {s} file offset way) = (
  set_pos-bounds s.f_pos file _ h (char_dev_llseek-bounds (s.f_pos file) offset way (h file)),
  λ x past. refl,
)
Step-InDevice {u} c h (read {s} file count) = (
  set_pos-bounds s.f_pos file _ h (
      DidRead-bounds s.mem (s.f_pos file) count _ (h file)
        (char_dev_read-DidRead u s.mem (s.f_pos file) count c (h file))),
  λ x past. refl,
)
Step-InDevice {u} c h (write {s} file buff) =
    let did = DidWrite-bounds s.mem (s.f_pos file) buff (length buff) _ (h file) (
      char_dev_write-DidWrite u s.mem (s.f_pos file) buff (length buff) c (h file) (omega arith)) in
    (set_pos-bounds s.f_pos file _ h did.0, did.1)

-- If all positions are in the device, they are so after any sequence of opens, seeks, reads and
-- writes of any files, and no byte past the end of the device has changed.
pub Steps-InDevice :
    {u : UserCopy} {s s' : State} → Copies u → InDevice s → Steps u s s' → InDevice s' × Kept s s'
Steps-InDevice c h done = (h, λ x past. refl)
Steps-InDevice c h (next step steps) =
    let first = Step-InDevice c h step in
    let rest = Steps-InDevice c first.0 steps in (rest.0, λ x past. rest.1 x past ∙ first.1 x past)
