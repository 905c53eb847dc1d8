-- ===== src/FileSystem/Write/Stored.antt =====
-- What it means that a text is stored along a chain.
use hdu_os_experiment.Common.{ℕ, ◌+◌, ◌*◌, ◌≤◌, ◌<◌, ◌≡◌, ◌≢◌, List, [], ◌∷◌, has, false, ◌∙◌}
use hdu_os_experiment.Memory.{Mem}
use hdu_os_experiment.FileSystem.Fat.{next_num, vd_block_num, vd_block_size, get_block_ptr}

-- A block behind the tables other than `z`.
abbrev pub Away : ℕ → ℕ → Type 0
Away z b = (b ≢ z) × (5 ≤ b)

-- From offset `off` of block `b` on, memory holds the text; at the end of a block it goes on in the
-- next of the chain. `l` is the block at which the text ends, in its interior, and no block passed
-- on the way is among `ls`, the chain from `l` on. No byte lies in block `z`
-- or in the tables.
pub data Stored (m : Mem) (z l : ℕ) (ls : List ℕ) : ℕ → ℕ → List ℕ → Type 0 where
  stop : {b off : ℕ} → b ≡ l → off < vd_block_size → Stored m z l ls b off []
  byte :
      {b off c : ℕ} {text : List ℕ}
      → off < vd_block_size
      → Away z b
      → m (get_block_ptr b + off) ≡ c
      → Stored m z l ls b (off + 1) text
      → Stored m z l ls b off (c ∷ text)
  next :
      {b off d : ℕ} {text : List ℕ}
      → off ≡ vd_block_size
      → b < vd_block_num
      → d < vd_block_num
      → next_num m b ≡ d
      → has b ls ≡ false
      → Stored m z l ls d 0 text
      → Stored m z l ls b off text

-- A stored text survives changes in block `z`, in the tables' bytes, and in entries of `ls`.
pub Stored-frame :
    {m m' : Mem} {z l : ℕ} {ls : List ℕ} {b off : ℕ} {text : List ℕ}
    → Stored m z l ls b off text
    → ((x k : ℕ) → Away z x → k < 1024 → m' (1024 * x + k) ≡ m (1024 * x + k))
    → ((x : ℕ) → x < 1024 → has x ls ≡ false → next_num m' x ≡ next_num m x)
    → Stored m' z l ls b off text
Stored-frame (stop e h) bytes entries = stop e h
Stored-frame (byte h away e s) bytes entries =
    byte h away (bytes _ _ away h ∙ e) (Stored-frame s bytes entries)
Stored-frame (next full b_lt lt e out s) bytes entries =
    next full b_lt lt (entries _ b_lt out ∙ e) out (Stored-frame s bytes entries)
