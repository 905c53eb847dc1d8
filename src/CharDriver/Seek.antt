-- ===== src/CharDriver/Seek.antt =====
-- `char_dev_llseek` against signed arithmetic.
use hdu_os_experiment.Common.{
  ℕ, ◌+◌, ◌-◌, ◌≤◌, ◌<◌, ◌≡◌, arith, Option, none, some, ltb, leb, ◌==◌, if◌then◌else◌,
}
use hdu_os_experiment.CharDriver.{mem_len, word, newpos, char_dev_llseek}

-- The position `base + offset` for a signed offset, if it lies in the device.
abbrev pub moved : ℕ → ℕ → Option ℕ
moved base offset =
    if ltb offset 9223372036854775808
    then (if leb (base + offset) mem_len then some (base + offset) else none)
    else (if leb (word - offset) base then some (base - (word - offset)) else none)

-- The position that an offset counts from.
abbrev pub origin : ℕ → ℕ → ℕ
origin f_pos way = if way == 1 then f_pos else if way == 2 then mem_len else 0

abbrev pub or_else : Option ℕ → ℕ → ℕ
or_else none d = d
or_else (some n) d = n

-- From a position in the device, and for each of the three ways, `char_dev_llseek` returns the position
-- at the signed offset from the start, the position or the end and moves there, if that lies in the
-- device; else it returns an error and stays.
pub char_dev_llseek_lem :
    (f_pos offset way : ℕ)
    → f_pos ≤ 512
    → offset < word
    → way ≤ 2
    → char_dev_llseek f_pos offset way
      ≡ (moved (origin f_pos way) offset, or_else (moved (origin f_pos way) offset) f_pos)
unfolding char_dev_llseek newpos
char_dev_llseek_lem f_pos offset way h1 h2 h3 = ground arith

-- Whatever the arguments, the position stays in the device.
pub char_dev_llseek-bounds :
    (f_pos offset way : ℕ) → f_pos ≤ 512 → (char_dev_llseek f_pos offset way).1 ≤ 512
unfolding char_dev_llseek
char_dev_llseek-bounds f_pos offset way h = ground arith
