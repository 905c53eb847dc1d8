-- ===== src/FileSystem/Write/Result.antt =====
-- `do_write` as a whole.
use hdu_os_experiment.Common.{
  ℕ, ◌+◌, ◌*◌, ◌≤◌, ◌<◌, ◌≡◌, ◌≢◌, ◌⊎◌, List, arith, refl, length, get_or, has, false, eq→==, ap₂,
  ◌∙◌, some, none, Option, inl, inr,
}
use hdu_os_experiment.Memory.{Mem, set_u32, get_u16}
use hdu_os_experiment.Memory.Laws.{Outside, set_u32_ne}
use hdu_os_experiment.FileSystem.Fcb
use hdu_os_experiment.FileSystem.Fcb.{set_len, update_fcb_time}
use hdu_os_experiment.FileSystem.Fcb.Time.{update_fcb_time_out}
use hdu_os_experiment.FileSystem.Fcb.Fields.{len_high_ext, len-set_len, len-update_fcb_time}
use hdu_os_experiment.FileSystem.Fat.{next_num, free_mark, sync_fat2}
use hdu_os_experiment.FileSystem.Fat.Chain.{Chain, Chain-length}
use hdu_os_experiment.FileSystem.Fat.Mirror.{
  IsMirrored, next_num_ext, sync_fat2_out, sync_fat2-IsMirrored, IsMirrored-ext,
}
use hdu_os_experiment.FileSystem.Oft.{Fs, set_oft}
use hdu_os_experiment.FileSystem.Write.{
  fcb_on_disk, Writing, written, disk_full, cut_chain, cut_rounds, close_write, write_from,
  do_write,
}
use hdu_os_experiment.FileSystem.Write.Stored.{Away, Stored, Stored-frame}
use hdu_os_experiment.FileSystem.Write.Fill.{AreBytes}
use hdu_os_experiment.FileSystem.Write.Advance.{AboveTables, IsOther}
use hdu_os_experiment.FileSystem.Write.Loop.{Wrote, Outcome, write_loop-Outcome}
use hdu_os_experiment.FileSystem.Write.Cut.{Cut, cut_chain-Cut}
use hdu_os_experiment.FileSystem.Write.Position.{seek-at}

-- Slot `i` holds a file on the chain `bs`, with its directory outside the chain.
pub record IsOpen (s : Fs) (i : ℕ) (bs : List ℕ) : Type 0 where
  pub chain : Chain s.vd (Fcb.s_block (s.oft_list i).fcb 0) bs
  pub above : AboveTables bs
  pub parent : IsOther s.vd bs (s.oft_list i).fdt.pdf_block_no
  pub entry : (s.oft_list i).fdt.fd_entry_no < 32

-- The lengths in both FCBs of the file stay below 2 ^ 32.
abbrev pub Fits : Fs → ℕ → ℕ → Type 0
Fits s i n =
    (Fcb.len (s.oft_list i).fcb 0 + n < 65536 * 65536)
    × (Fcb.len s.vd (fcb_on_disk (s.oft_list i)) + n < 65536 * 65536)

-- What a completed write from offset `off` of block `b` leaves.
pub record Completed (s s' : Fs) (i : ℕ) (bs : List ℕ) (b off : ℕ) (text : List ℕ) : Type 0 where
  pub l : ℕ
  pub ls : List ℕ
  pub stored : Stored s'.vd (s.oft_list i).fdt.pdf_block_no l ls b off text
  pub pointer : (s'.oft_list i).fdt.file_ptr ≡ (s.oft_list i).fdt.file_ptr + length text
  pub same_block : Fcb.s_block (s'.oft_list i).fcb 0 ≡ Fcb.s_block (s.oft_list i).fcb 0
  pub longer : Fcb.len (s'.oft_list i).fcb 0 ≡ Fcb.len (s.oft_list i).fcb 0 + length text
  pub longer_on_disk :
      Fcb.len s'.vd (fcb_on_disk (s.oft_list i))
      ≡ Fcb.len s.vd (fcb_on_disk (s.oft_list i)) + length text
  pub other_blocks :
      (x k : ℕ)
      → IsOther s.vd bs x
      → x ≢ (s.oft_list i).fdt.pdf_block_no
      → k < 1024
      → s'.vd (1024 * x + k) ≡ s.vd (1024 * x + k)
  pub other_entries : (x : ℕ) → IsOther s.vd bs x → next_num s'.vd x ≡ next_num s.vd x
  pub mirrored : IsMirrored s'.vd

IsOther-inside :
    (m : Mem) (bs cs : List ℕ)
    → ((x : ℕ) → has x bs ≡ false → has x cs ≡ false)
    → (x : ℕ) → IsOther m bs x
    → IsOther m cs x
IsOther-inside m bs cs inside x o = record {
  low = o.low;
  high = o.high;
  out = inside x o.out;
  taken = o.taken;
}

module _ (s : Fs) (i : ℕ) (m : Mem) (n : ℕ) (low : 5 ≤ (s.oft_list i).fdt.pdf_block_no) where
  abbrev q : ℕ
  q = fcb_on_disk (s.oft_list i)

  close_write_out :
      (a : ℕ) → Outside a 3072 2048 → Outside a (q + 18) 14 → (close_write s i m n).vd a ≡ m a
  unfolding close_write set_len
  close_write_out a h h' =
      update_fcb_time_out _ q (s.clock 1) a (ground arith)
      ∙ (set_u32_ne (sync_fat2 m) (q + 28) _ a (ground arith) ∙ sync_fat2_out m a h)

  close_write-IsMirrored : IsMirrored (close_write s i m n).vd
  unfolding close_write set_len
  close_write-IsMirrored =
      IsMirrored-ext (sync_fat2 m) (close_write s i m n).vd
        (λ a lo hi.
          update_fcb_time_out (set_len (sync_fat2 m) q (Fcb.len (sync_fat2 m) q + n)) q (s.clock 1)
            a (omega arith)
          ∙ set_u32_ne (sync_fat2 m) (q + 28) (Fcb.len (sync_fat2 m) q + n) a (omega arith))
        (sync_fat2-IsMirrored m)

  close_write-pointer :
      ((close_write s i m n).oft_list i).fdt.file_ptr ≡ (s.oft_list i).fdt.file_ptr + n
  unfolding close_write set_oft
  close_write-pointer = rw (eq→== i i refl)

  close_write-s_block :
      Fcb.s_block ((close_write s i m n).oft_list i).fcb 0 ≡ Fcb.s_block (s.oft_list i).fcb 0
  unfolding close_write set_oft Fcb.s_block get_u16 set_len
  close_write-s_block = rw (eq→== i i refl) (
      ap₂ (λ (x y : ℕ). x + 256 * y) (close_byte 20 (omega arith) (omega arith))
        (close_byte 21 (omega arith) (omega arith)))
    where
      grown : Mem
      grown = set_u32 (s.oft_list i).fcb 28 (Fcb.len (s.oft_list i).fcb 0 + n)

      close_byte :
          (a : ℕ) → 20 ≤ a → a < 22 → update_fcb_time grown 0 (s.clock 0) a ≡ (s.oft_list i).fcb a
      close_byte a lo hi =
          update_fcb_time_out grown 0 (s.clock 0) a (omega arith)
          ∙ set_u32_ne (s.oft_list i).fcb 28 (Fcb.len (s.oft_list i).fcb 0 + n) a (omega arith)

  close_write-len :
      Fcb.len (s.oft_list i).fcb 0 + n < 65536 * 65536
      → Fcb.len ((close_write s i m n).oft_list i).fcb 0 ≡ Fcb.len (s.oft_list i).fcb 0 + n
  unfolding close_write set_oft
  close_write-len h =
      rw (eq→== i i refl) (len-update_fcb_time _ 0 (s.clock 0) ∙ len-set_len _ 0 _ h)

  close_write-len_on_disk :
      Fcb.len m q + n < 65536 * 65536 → Fcb.len (close_write s i m n).vd q ≡ Fcb.len m q + n
  unfolding close_write
  close_write-len_on_disk h =
      let synced : Fcb.len (sync_fat2 m) q ≡ Fcb.len m q =
        len_high_ext (sync_fat2 m) m q λ a lo hi. sync_fat2_out m a (omega arith) in
      len-update_fcb_time _ q (s.clock 1) ∙ (len-set_len _ q _ (omega arith) ∙ omega arith)

module _ (s : Fs) (i : ℕ) (bs cs : List ℕ) (b off : ℕ) (text : List ℕ) (m m' : Mem) (l : ℕ)
    (file : IsOpen s i bs) (inside : (x : ℕ) → has x bs ≡ false → has x cs ≡ false)
    (wrote : Wrote s.vd (s.oft_list i).fdt.pdf_block_no b off cs text m l) (cut : Cut m m' wrote.ls)
    (fits : Fits s i (length text)) where
  abbrev pdf : ℕ
  pdf = (s.oft_list i).fdt.pdf_block_no

  abbrev closed : Fs
  closed = close_write s i m' (length text)

  IsOther-unlinked : (x : ℕ) → IsOther s.vd bs x → IsOther s.vd cs x
  IsOther-unlinked = IsOther-inside s.vd bs cs inside

  closed-bytes : (x k : ℕ) → Away pdf x → k < 1024 → closed.vd (1024 * x + k) ≡ m (1024 * x + k)
  closed-bytes x k away h =
      close_write_out s i m' (length text) file.parent.low (1024 * x + k)
        (inr (omega (arith, away.1))) (ground (arith, away.0, file.entry))
      ∙ cut.others (1024 * x + k) (inr (omega (arith, away.1)))

  closed-entries : (x : ℕ) → x < 1024 → has x wrote.ls ≡ false → next_num closed.vd x ≡ next_num m x
  closed-entries x h out =
      next_num_ext m' closed.vd x h (λ a lo hi.
        close_write_out s i m' (length text) file.parent.low a (inl hi)
          (inl (omega (arith, file.parent.low))))
      ∙ (cut.entries x ∙ rw out refl)

  directory-len :
      Fcb.len m' (fcb_on_disk (s.oft_list i)) ≡ Fcb.len s.vd (fcb_on_disk (s.oft_list i))
  directory-len = len_high_ext m' s.vd (fcb_on_disk (s.oft_list i)) λ a lo hi.
      cut.others a (inr (omega (arith, file.parent.low)))
      ∙ wrote.spares.blocks pdf a (IsOther-unlinked pdf file.parent) (omega arith)
          (omega (arith, file.entry))

  Completed-close : Completed s closed i bs b off text
  Completed-close = record {
    l = l;
    ls = wrote.ls;
    stored = Stored-frame wrote.stored closed-bytes closed-entries;
    pointer = close_write-pointer s i m' (length text) file.parent.low;
    same_block = close_write-s_block s i m' (length text) file.parent.low;
    longer = close_write-len s i m' (length text) file.parent.low fits.0;
    longer_on_disk =
        close_write-len_on_disk s i m' (length text) file.parent.low
          (omega (arith, directory-len, fits.1))
        ∙ omega (arith, directory-len);
    other_blocks = λ x k o ne h.
        closed-bytes x k (ne, o.low) h
        ∙ wrote.spares.blocks x (1024 * x + k) (IsOther-unlinked x o) (omega arith) (omega arith);
    other_entries = λ x o.
        closed-entries x o.high (wrote.others x (IsOther-unlinked x o))
        ∙ wrote.spares.entries x (IsOther-unlinked x o);
    mirrored = close_write-IsMirrored s i m' (length text) file.parent.low;
  }

-- `do_write` returned the number of bytes and stored them, or found the disk full and returned 1.
abbrev pub DidWrite : Fs → ℕ → List ℕ → ℕ → ℕ → List ℕ → Option (ℕ × Fs) → Type 0
DidWrite s i bs b off text none = ⊥
DidWrite s i bs b off text (some (code, s')) =
    ((code ≡ length text) × Completed s s' i bs b off text)
    ⊎ ((code ≡ 1) × ((x : ℕ) → 5 ≤ x → x < 1024 → next_num s'.vd x ≢ free_mark))

module _ (s : Fs) (i : ℕ) (bs cs : List ℕ) (b off : ℕ) (text : List ℕ) (file : IsOpen s i bs)
    (inside : (x : ℕ) → has x bs ≡ false → has x cs ≡ false) (fits : Fits s i (length text)) where
  after_cut :
      (m : Mem) (l : ℕ)
      → Wrote s.vd (s.oft_list i).fdt.pdf_block_no b off cs text m l
      → DidWrite s i bs b off text (elim (cut_chain cut_rounds m l) [
        | none ↦ none
        | some m' ↦ some (length text, close_write s i m' (length text))
      ])
  after_cut m l w =
      let (m', run, cut) = cut_chain-Cut 65536 m w.chain (omega (arith, Chain-length w.chain)) in
      rw run (inl (refl, Completed-close s i bs cs b off text m m' l file inside w cut fits))

  after_loop :
      (w : Writing)
      → Outcome s.vd (s.oft_list i).fdt.pdf_block_no b off cs text w
      → DidWrite s i bs b off text (elim w [
        | Writing.no_end ↦ none
        | disk_full m ↦ some (1, record s { vd = m })
        | written m last ↦ elim (cut_chain cut_rounds m last) [
          | none ↦ none
          | some m' ↦ some (length text, close_write s i m' (length text))
        ]
      ])
  after_loop (written m l) o = after_cut m l o
  after_loop (disk_full m) o = inr (refl, o.1)
  after_loop Writing.no_end o = o

-- With the file pointer in a block of the file's chain, `do_write` ends. Either it returns the
-- number of bytes: then they are stored along the chain from the file pointer on, both FCBs and the
-- pointer count them, and no block in use outside the chain has changed but the directory's; or no
-- block of the data area is left free, and it returns 1.
pub do_write-DidWrite :
    (s : Fs) (i : ℕ) (bs text : List ℕ) (k r : ℕ)
    → IsOpen s i bs
    → (s.oft_list i).fdt.file_ptr ≡ 1024 * k + r
    → r < 1024
    → k < length bs
    → AreBytes text
    → Fits s i (length text)
    → DidWrite s i bs (get_or bs k 0) r text (do_write s i text)
unfolding do_write write_from
do_write-DidWrite s i bs text k r file e h1 h2 bytes fits =
    let (found, rest) =
      seek-at ((s.oft_list i).fdt.file_ptr + 1) k r (s.oft_list i).fdt.file_ptr s.vd file.chain e h1
        h2 (omega arith) in
    rw found (
      after_loop s i bs rest.cs (get_or bs k 0) r text file rest.others fits _ (
        write_loop-Outcome (length text + 1) s.vd _ (get_or bs k 0) r rest.cs text (omega arith) h1
          bytes rest.chain (rest.above file.above)
          (IsOther-inside s.vd bs rest.cs rest.others _ file.parent)))
