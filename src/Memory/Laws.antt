-- ===== src/Memory/Laws.antt =====
-- Reading back what a store or a block call of Memory.antt wrote, and what it leaves alone.
use hdu_os_experiment.Common.{ℕ, ◌+◌, ◌-◌, ◌*◌, ◌%◌, ◌≤◌, ◌<◌, ◌≡◌, ◌⊎◌, ap, arith}
use hdu_os_experiment.Memory.{Mem, put, get_u16, set_u16, get_u32, set_u32, memset, memcpy}

-- An address outside the `n` bytes from `p`.
abbrev pub Outside : ℕ → ℕ → ℕ → Type 0
Outside a p n = (a < p) ⊎ (p + n ≤ a)

pub put_ne : (m : Mem) (p v a : ℕ) → Outside a p 1 → put m p v a ≡ m a
unfolding put
put_ne m p v a h = ground arith

pub put_self : (m : Mem) (p v : ℕ) → put m p v p ≡ v % 256
unfolding put
put_self m p v = ground arith

pub set_u16_ne : (m : Mem) (p v a : ℕ) → Outside a p 2 → set_u16 m p v a ≡ m a
unfolding set_u16
set_u16_ne m p v a h = ground arith

pub get_u16-set_u16 : (m : Mem) (p v : ℕ) → get_u16 (set_u16 m p v) p ≡ v % 65536
unfolding get_u16 set_u16
get_u16-set_u16 m p v = ground arith

pub get_u16-set_u16_ne :
    (m : Mem) (p v q : ℕ) → (q + 2 ≤ p) ⊎ (p + 2 ≤ q) → get_u16 (set_u16 m p v) q ≡ get_u16 m q
unfolding get_u16 set_u16
get_u16-set_u16_ne m p v q h = ground arith

pub set_u32_ne : (m : Mem) (p v a : ℕ) → Outside a p 4 → set_u32 m p v a ≡ m a
unfolding set_u32
set_u32_ne m p v a h = ground arith

pub get_u32-set_u32 : (m : Mem) (p v : ℕ) → v < 65536 * 65536 → get_u32 (set_u32 m p v) p ≡ v
unfolding get_u32 set_u32
get_u32-set_u32 m p v h = ground arith

pub memset_in : (m : Mem) (p v n a : ℕ) → p ≤ a → a < p + n → memset m p v n a ≡ v % 256
unfolding memset
memset_in m p v n a lo hi = ground arith

pub memset_out : (m : Mem) (p v n a : ℕ) → Outside a p n → memset m p v n a ≡ m a
unfolding memset
memset_out m p v n a h = ground arith

pub memcpy_in :
    (d : Mem) (p : ℕ) (s : Mem) (q n i : ℕ) → i < n → memcpy d p s q n (p + i) ≡ s (q + i)
unfolding memcpy
memcpy_in d p s q n i h = ground (arith, ap s at_offset)
  where
    at_offset : q + (p + i - p) ≡ q + i
    at_offset = omega arith

pub memcpy_out : (d : Mem) (p : ℕ) (s : Mem) (q n a : ℕ) → Outside a p n → memcpy d p s q n a ≡ d a
unfolding memcpy
memcpy_out d p s q n a h = ground arith

pub get_u32-set_u32_wrap : (m : Mem) (p v : ℕ) → get_u32 (set_u32 m p v) p ≡ v % (65536 * 65536)
unfolding get_u32 get_u16 set_u32 set_u16 put
get_u32-set_u32_wrap m p v = ground arith
