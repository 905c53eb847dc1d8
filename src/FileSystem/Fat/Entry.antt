-- ===== src/FileSystem/Fat/Entry.antt =====
-- Single entries of the file allocation table: reading after a store.
use hdu_os_experiment.Common.{ℕ, ◌+◌, ◌*◌, ◌%◌, ◌≡◌, arith, ◌==◌, if◌then◌else◌}
use hdu_os_experiment.Memory.{Mem}
use hdu_os_experiment.Memory.Laws.{Outside, set_u16_ne, get_u16-set_u16, get_u16-set_u16_ne}
use hdu_os_experiment.FileSystem.Fat.{next_num, set_next}

pub next_num-set_next :
    (m : Mem) (i v j : ℕ)
    → next_num (set_next m i v) j ≡ (if i == j then v % 65536 else next_num m j)
unfolding next_num set_next
next_num-set_next m i v j = ground (
  arith,
  get_u16-set_u16 m (1024 + 2 * i) v,
  get_u16-set_u16_ne m (1024 + 2 * i) v (1024 + 2 * j),
)

-- A store into the table changes its two bytes only.
pub set_next_out : (m : Mem) (i v a : ℕ) → Outside a (1024 + 2 * i) 2 → set_next m i v a ≡ m a
unfolding set_next
set_next_out m i v a h = set_u16_ne m (1024 + 2 * i) v a h
