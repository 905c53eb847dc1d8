-- ===== src/CharDriver.antt =====
-- The character device of exam3/exam3-1/c_driver.c: a buffer of 512 bytes that its open files seek
-- in, read and write. A `loff_t` is its 64-bit word, negative from 2 ^ 63 on.
pub mod Seek
pub mod Transfer
pub mod Session
pub mod Setup
mod Examples
use hdu_os_experiment.Common.{
  ℕ, zero, suc, ◌+◌, ◌-◌, ◌%◌, Bool, true, false, ◌||◌, Option, none, some, List, [], ◌∷◌, ◌==◌,
  ltb, leb, if◌then◌else◌,
}
use hdu_os_experiment.Memory.{Mem}

-- `len`.
abbrev pub mem_len : ℕ
mem_len = 512

abbrev pub word : ℕ
word = 18446744073709551616

-- The position that `char_dev_llseek` works out.
unfoldable pub newpos : ℕ → ℕ → ℕ → ℕ
newpos f_pos offset way =
    if way == 0
    then offset
    else if way == 1
    then (f_pos + offset) % word
    else if way == 2
    then (mem_len + offset) % word
    else 0

-- `char_dev_llseek`: what it returns, and `f_pos` then. `none` is `-EINVAL`.
unfoldable pub char_dev_llseek : ℕ → ℕ → ℕ → Option ℕ × ℕ
char_dev_llseek f_pos offset way =
    let n = newpos f_pos offset way in
    if leb 9223372036854775808 n || ltb mem_len n then (none, f_pos) else (some n, n)

-- The kernel's copies between the device and the buffer of a process. Each gives the number of bytes
-- it could not copy, with the buffer or the memory that it leaves.
pub record UserCopy : Type 0 where
  pub to_user : Mem → ℕ → ℕ → ℕ × List ℕ
  pub from_user : Mem → ℕ → List ℕ → ℕ → ℕ × Mem

-- `count < leave ? count : leave`, where `leave` is an `unsigned long`.
unfoldable pub transfer_length : ℕ → ℕ → ℕ
transfer_length offset count =
    let leave = (word + mem_len - offset) % word in if ltb count leave then count else leave

-- `char_dev_read` of `count` bytes at `*offp`: what it returns, the buffer, and `*offp` then. `none`
-- is the value -1.
unfoldable pub char_dev_read : UserCopy → Mem → ℕ → ℕ → Option ℕ × List ℕ × ℕ
char_dev_read u mem offset count =
    let length = transfer_length offset count in
    let (res, buff) = u.to_user mem offset length in
    if res == 0 then (some length, buff, (offset + length) % word) else (none, buff, offset)

-- `char_dev_write` of `count` bytes of the buffer at `*offp`: what it returns, the memory, and `*offp`
-- then.
unfoldable pub char_dev_write : UserCopy → Mem → ℕ → List ℕ → ℕ → Option ℕ × Mem × ℕ
char_dev_write u mem offset buff count =
    let length = transfer_length offset count in
    let (res, mem') = u.from_user mem offset buff length in
    if res == 0 then (some length, mem', (offset + length) % word) else (none, mem', offset)

-- What the module holds of the kernel's: its device number, its memory and its registered device.
pub record Held : Type 0 where
  pub number : Bool
  pub memory : Bool
  pub device : Bool

-- `char_dev_init`, by which of its three requests the kernel refuses: whether it returns 0, and what
-- is held then.
unfoldable pub char_dev_init : Bool → Bool → Bool → Held → Bool × Held
char_dev_init no_number no_memory no_device h =
    let h1 = record h { number = true } in
    let h2 = record h1 { memory = true } in
    let h3 = record h2 { memory = false } in
    if no_number
    then (false, h)
    else if no_memory
    then (false, record h1 { number = false })
    else if no_device
    then (false, record h3 { number = false })
    else (true, record h2 { device = true })

-- `char_dev_exit`.
unfoldable pub char_dev_exit : Held → Held
char_dev_exit h =
    let h1 = record h { device = false } in
    let h2 = record h1 { memory = false } in record h2 { number = false }
