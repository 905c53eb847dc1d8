-- ===== src/FileSystem/Fat/Mirror.antt =====
-- The second copy of the file allocation table.
use hdu_os_experiment.Common.{ℕ, ◌+◌, ◌*◌, ◌≤◌, ◌<◌, ◌≡◌, arith, ◌∙◌, sym}
use hdu_os_experiment.Memory.{Mem, get_u16}
use hdu_os_experiment.Memory.Laws.{Outside, memcpy_in, memcpy_out}
use hdu_os_experiment.FileSystem.Fat.{next_num, sync_fat2}

-- Both tables hold the same bytes.
abbrev pub IsMirrored : Mem → Type 0
IsMirrored m = (k : ℕ) → k < 2048 → m (3072 + k) ≡ m (1024 + k)

-- Memory that agrees on the first table has the same entries.
pub next_num_ext :
    (m m' : Mem) (j : ℕ)
    → j < 1024
    → ((a : ℕ) → 1024 ≤ a → a < 3072 → m' a ≡ m a)
    → next_num m' j ≡ next_num m j
unfolding next_num get_u16
next_num_ext m m' j h same = ground (arith, same (1024 + 2 * j), same (1024 + 2 * j + 1))

pub sync_fat2_out : (m : Mem) (a : ℕ) → Outside a 3072 2048 → sync_fat2 m a ≡ m a
unfolding sync_fat2
sync_fat2_out m a h = memcpy_out m 3072 m 1024 2048 a h

pub sync_fat2-IsMirrored : (m : Mem) → IsMirrored (sync_fat2 m)
unfolding sync_fat2
sync_fat2-IsMirrored m k h =
    memcpy_in m 3072 m 1024 2048 k h ∙ sym (memcpy_out m 3072 m 1024 2048 (1024 + k) (omega arith))

pub IsMirrored-ext :
    (m m' : Mem) → ((a : ℕ) → 1024 ≤ a → a < 5120 → m' a ≡ m a) → IsMirrored m → IsMirrored m'
IsMirrored-ext m m' same h k lt =
    same (3072 + k) (omega arith) (omega arith)
    ∙ (h k lt ∙ sym (same (1024 + k) (omega arith) (omega arith)))
