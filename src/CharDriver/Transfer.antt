-- ===== src/CharDriver/Transfer.antt =====
-- Reads and writes of the character device at a position in it.
use hdu_os_experiment.Common.{
  ℕ, zero, suc, ◌+◌, ◌-◌, ◌%◌, ◌≤◌, ◌<◌, ◌≡◌, refl, arith, Option, none, some, List, [], ◌∷◌, ltb,
  ◌==◌, if◌then◌else◌, length, take, eq→==, Bool-cases, inl, inr,
}
use hdu_os_experiment.Memory.{Mem}
use hdu_os_experiment.Memory.Laws.{Outside}
use hdu_os_experiment.CharDriver.{
  UserCopy, word, transfer_length, char_dev_read, char_dev_write, char_dev_llseek, newpos,
}

-- The `n` bytes from `a` on.
abbrev pub region : Mem → ℕ → ℕ → List ℕ
region m a zero = []
region m a (suc n) = m a ∷ region m (a + 1) n

-- What the kernel documents of its copies: with nothing left over all bytes have been copied, and
-- a copy into the device touches nothing but its range.
pub record Copies (u : UserCopy) : Type 0 where
  pub to_user : (m : Mem) (a n : ℕ) → (u.to_user m a n).0 ≡ 0 → (u.to_user m a n).1 ≡ region m a n
  pub from_user :
      (m : Mem) (a : ℕ) (buff : List ℕ) (n : ℕ)
      → n ≤ length buff
      → (u.from_user m a buff n).0 ≡ 0
      → region (u.from_user m a buff n).1 a n ≡ take n buff
  pub from_user_out :
      (m : Mem) (a : ℕ) (buff : List ℕ) (n x : ℕ)
      → Outside x a n
      → (u.from_user m a buff n).1 x ≡ m x

abbrev pub least : ℕ → ℕ → ℕ
least a b = if ltb a b then a else b

pub transfer_length_lem :
    (offset count : ℕ) → offset ≤ 512 → transfer_length offset count ≡ least count (512 - offset)
unfolding transfer_length
transfer_length_lem offset count h = ground arith

-- Past the end of the device the room left wraps around, and any count is let through: the kernel is
-- asked for all of it, outside the buffer.
pub transfer_length-beyond :
    (offset count : ℕ)
    → 512 < offset
    → offset < 9223372036854775808
    → count < 9223372036854775808
    → transfer_length offset count ≡ count
unfolding transfer_length
transfer_length-beyond offset count h1 h2 h3 = ground arith

-- What a read of `count` bytes at `offset` gives: the bytes of the device up to its end, or an error
-- that leaves the position.
abbrev pub DidRead : Mem → ℕ → ℕ → Option ℕ × List ℕ × ℕ → Type 0
DidRead mem offset count (none, buff, offp) = offp ≡ offset
DidRead mem offset count (some n, buff, offp) =
    (n ≡ least count (512 - offset)) × (buff ≡ region mem offset n) × (offp ≡ offset + n)

-- From a position in the device `char_dev_read` returns the number of bytes asked for, or of those
-- left if these are fewer, with exactly these bytes of the device in the buffer, and advances by so
-- many; or it returns -1 and leaves the position.
pub char_dev_read-DidRead :
    (u : UserCopy) (mem : Mem) (offset count : ℕ)
    → Copies u
    → offset ≤ 512
    → DidRead mem offset count (char_dev_read u mem offset count)
unfolding char_dev_read
char_dev_read-DidRead u mem offset count c h =
    let size = transfer_length_lem offset count h in
    elim (Bool-cases ((u.to_user mem offset (transfer_length offset count)).0 == 0)) [
      | inl all ↦
          rw all
            (size, c.to_user mem offset (transfer_length offset count) (ground arith), ground arith)
      | inr some_left ↦ rw some_left refl
    ]

-- What a write gives: the bytes of the buffer in the device up to its end, or an error that leaves
-- the position; nothing outside the range of the write changes either way.
abbrev pub DidWrite : Mem → ℕ → List ℕ → ℕ → Option ℕ × Mem × ℕ → Type 0
DidWrite mem offset buff count (none, mem', offp) =
    ((x : ℕ) → Outside x offset (least count (512 - offset)) → mem' x ≡ mem x) × (offp ≡ offset)
DidWrite mem offset buff count (some n, mem', offp) =
    ((x : ℕ) → Outside x offset (least count (512 - offset)) → mem' x ≡ mem x)
    × (n ≡ least count (512 - offset))
    × (region mem' offset n ≡ take n buff)
    × (offp ≡ offset + n)

-- From a position in the device `char_dev_write` of a buffer stores its bytes as far as they fit,
-- returns their number and advances by so many; or it returns -1 and leaves the position. No byte
-- outside the range, and so none outside the device, changes either way.
pub char_dev_write-DidWrite :
    (u : UserCopy) (mem : Mem) (offset : ℕ) (buff : List ℕ) (count : ℕ)
    → Copies u
    → offset ≤ 512
    → count ≤ length buff
    → DidWrite mem offset buff count (char_dev_write u mem offset buff count)
unfolding char_dev_write
char_dev_write-DidWrite u mem offset buff count c h fits =
    let n = transfer_length offset count in
    let size = transfer_length_lem offset count h in
    elim (Bool-cases ((u.from_user mem offset buff n).0 == 0)) [
      | inl all ↦ rw all (
        λ x out. c.from_user_out mem offset buff n x (ground arith),
        size,
        c.from_user mem offset buff n (ground arith) (ground arith),
        ground arith,
      )
      | inr some_left ↦
          rw some_left (λ x out. c.from_user_out mem offset buff n x (ground arith), refl)
    ]

-- If the kernel can copy all of both, a write at a position in the device, a seek back from the start
-- and a read of the number of bytes written give the buffer back, as far as it fitted.
pub char_dev_read-write :
    (u : UserCopy) (mem : Mem) (pos : ℕ) (buff : List ℕ) (n : ℕ) (mem' : Mem) (offp : ℕ)
    → Copies u
    → pos ≤ 512
    → char_dev_write u mem pos buff (length buff) ≡ (some n, mem', offp)
    → (u.to_user mem' pos n).0 ≡ 0
    → (char_dev_llseek offp pos 0 ≡ (some pos, pos))
      × (char_dev_read u mem' pos n ≡ (some n, take n buff, pos + n))
unfolding char_dev_llseek newpos char_dev_read
char_dev_read-write u mem pos buff n mem' offp c h run all =
    let (out, size, stored, end) =
      rw run at (char_dev_write-DidWrite u mem pos buff (length buff) c h (omega arith)) in
    let same : transfer_length pos n ≡ n = ground (arith, transfer_length_lem pos n h) in
    let wraps : (pos + n) % word ≡ pos + n = ground arith in
    (ground arith, rw (same, eq→== _ _ all, c.to_user mem' pos n all, stored, wraps) refl)
