-- ===== src/Memory.antt =====
-- The memory that exam5/File_System/main.cpp works in: bytes at addresses, the little-endian words
-- of its structures, and the calls of string.h that it makes.
-- An address is an offset from the start of its object: from `VDPtr` for the virtual disk, from
-- the structure for an FCB that lies in the open file table.
pub mod Laws
pub mod Text
pub mod Token
use hdu_os_experiment.Common.{
  ℕ, zero, suc, ◌+◌, ◌-◌, ◌*◌, ◌/◌, ◌%◌, Bool, true, false, ◌&&◌, List, [], ◌∷◌, ltb, leb, ◌==◌,
  if◌then◌else◌,
}

abbrev pub Mem : Type 0
Mem = ℕ → ℕ

-- The store of an `unsigned char`.
unfoldable pub put : Mem → ℕ → ℕ → Mem
put m p v a = if a == p then v % 256 else m a

unfoldable pub get_u16 : Mem → ℕ → ℕ
get_u16 m p = m p + 256 * m (p + 1)

unfoldable pub set_u16 : Mem → ℕ → ℕ → Mem
unfolding put
set_u16 m p v = put (put m p v) (p + 1) (v / 256)

unfoldable pub get_u32 : Mem → ℕ → ℕ
unfolding get_u16
get_u32 m p = get_u16 m p + 65536 * get_u16 m (p + 2)

unfoldable pub set_u32 : Mem → ℕ → ℕ → Mem
unfolding set_u16
set_u32 m p v = set_u16 (set_u16 m p v) (p + 2) (v / 65536)

-- `memset (p, v, n)`.
unfoldable pub memset : Mem → ℕ → ℕ → ℕ → Mem
memset m p v n a = if leb p a && ltb a (p + n) then v % 256 else m a

-- `memcpy (p, q, n)`, from the object `s` into the object `d`.
unfoldable pub memcpy : Mem → ℕ → Mem → ℕ → ℕ → Mem
memcpy d p s q n a = if leb p a && ltb a (p + n) then s (q + (a - p)) else d a

-- `strcpy (p, text)`; the text is given without its NUL.
unfoldable pub strcpy : Mem → ℕ → List ℕ → Mem
unfolding put
strcpy m p [] = put m p 0
strcpy m p (c ∷ cs) = strcpy (put m p c) (p + 1) cs

-- The text that `strncpy (buffer, p, n); buffer[n] = 0` leaves: up to the first NUL, `n` bytes
-- at most.
unfoldable pub read_str : Mem → ℕ → ℕ → List ℕ
read_str m p zero = []
read_str m p (suc n) = let rest = read_str m (p + 1) n in if m p == 0 then [] else m p ∷ rest

-- `strcmp (s, t) == 0`.
unfoldable pub str_eq : List ℕ → List ℕ → Bool
str_eq [] [] = true
str_eq [] (d ∷ ds) = false
str_eq (c ∷ cs) [] = false
str_eq (c ∷ cs) (d ∷ ds) = (c == d) && str_eq cs ds
