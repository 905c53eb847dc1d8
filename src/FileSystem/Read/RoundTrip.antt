-- ===== src/FileSystem/Read/RoundTrip.antt =====
-- A file that is written anew and then read.
use hdu_os_experiment.Common.{
  ℕ, ◌+◌, ◌≤◌, ◌<◌, ◌≡◌, ◌≢◌, ◌⊎◌, refl, arith, List, [], ◌∷◌, length, get_or, some, none, Option,
  inl, inr, ◌∙◌, lt→ltb, le→ltb, false, subst, eq→==,
}
use hdu_os_experiment.Memory.{Mem, put, get_u16, set_u16, set_u32}
use hdu_os_experiment.Memory.Laws.{set_u32_ne}
use hdu_os_experiment.Memory.Text.{IsText}
use hdu_os_experiment.FileSystem.Fcb
use hdu_os_experiment.FileSystem.Fcb.{set_len}
use hdu_os_experiment.FileSystem.Fcb.Fields.{len-set_len}
use hdu_os_experiment.FileSystem.Fat.{next_num, free_mark}
use hdu_os_experiment.FileSystem.Fat.Chain.{Chain, last, link, Chain-frame, Chain-mem-lt}
use hdu_os_experiment.FileSystem.Fat.Mirror.{next_num_ext}
use hdu_os_experiment.FileSystem.Oft.{Fs, set_oft}
use hdu_os_experiment.FileSystem.Write.{fcb_on_disk, write_pre_process, do_write}
use hdu_os_experiment.FileSystem.Write.Fill.{AreBytes}
use hdu_os_experiment.FileSystem.Write.Stored.{Stored}
use hdu_os_experiment.FileSystem.Write.Result.{IsOpen, Fits, DidWrite, do_write-DidWrite}
use hdu_os_experiment.FileSystem.Read.{my_read}
use hdu_os_experiment.FileSystem.Read.Loop.{read_loop-Stored}

AreBytes-of_text : (text : List ℕ) → IsText text → AreBytes text
AreBytes-of_text [] t = tt
AreBytes-of_text (c ∷ text) t = (t.1, AreBytes-of_text text t.2)

Chain-head : {m : Mem} {b : ℕ} {bs : List ℕ} → Chain m b bs → (get_or bs 0 0 ≡ b) × (0 < length bs)
Chain-head (last h e) = (refl, omega arith)
Chain-head (link h e out c) = (refl, omega arith)

-- The state between `writePreProcess` and `do_write`.
abbrev pub emptied : Fs → ℕ → Fs
emptied s i = write_pre_process s i false

module _ (s : Fs) (i : ℕ) where
  emptied-oft : (emptied s i).oft_list i ≡ record (s.oft_list i) {
    fcb = set_len (s.oft_list i).fcb 0 0;
    fdt = record (s.oft_list i).fdt { file_ptr = 0 };
  }
  unfolding write_pre_process set_oft
  emptied-oft = rw (eq→== i i refl)

  module _ (bs : List ℕ) (file : IsOpen s i bs) where
    emptied-entries : (x : ℕ) → x < 1024 → next_num (emptied s i).vd x ≡ next_num s.vd x
    unfolding write_pre_process set_len
    emptied-entries x h = next_num_ext s.vd (emptied s i).vd x h λ a lo hi.
        set_u32_ne s.vd (fcb_on_disk (s.oft_list i) + 28) 0 a (inl (omega (arith, file.parent.low)))

    emptied-block :
        Fcb.s_block (set_len (s.oft_list i).fcb 0 0) 0 ≡ Fcb.s_block (s.oft_list i).fcb 0
    unfolding Fcb.s_block get_u16 set_len set_u32 set_u16 put
    emptied-block = refl

    emptied-IsOpen : IsOpen (emptied s i) i bs
    emptied-IsOpen = record {
      chain =
          rw (emptied-oft, emptied-block)
            (Chain-frame file.chain λ j o. emptied-entries j (Chain-mem-lt file.chain j o));
      above = file.above;
      parent = rw emptied-oft (record {
        low = file.parent.low;
        high = file.parent.high;
        out = file.parent.out;
        taken = λ e.
            file.parent.taken
              (ground (arith, emptied-entries (s.oft_list i).fdt.pdf_block_no file.parent.high));
      });
      entry = rw emptied-oft file.entry;
    }

-- What `do_write` returned, and what `my_read` of the file then returns and prints.
abbrev pub ReadsBack : ℕ → List ℕ → Option (ℕ × Fs) → Type 0
ReadsBack i text none = ⊥
ReadsBack i text (some (code, s')) =
    ((code ≡ length text) × ((s'' : Fs) × (my_read s' i ≡ some ((0, text), s''))))
    ⊎ ((code ≡ 1) × ((x : ℕ) → 5 ≤ x → x < 1024 → next_num s'.vd x ≢ free_mark))

my_read-Stored :
    (s : Fs) (i z l : ℕ) (ls text : List ℕ)
    → i ≤ 10
    → Fcb.len (s.oft_list i).fcb 0 ≡ length text
    → length text < 2147483648
    → IsText text
    → Stored s.vd z l ls (Fcb.s_block (s.oft_list i).fcb 0) 0 text
    → (s' : Fs) × (my_read s i ≡ some ((0, text), s'))
unfolding my_read
my_read-Stored s i z l ls text slot e small t stored = (
  record s {
    oft_list =
        set_oft s.oft_list i
          (record (s.oft_list i) { fdt = record (s.oft_list i).fdt { file_ptr = 0 } });
  },
  rw
      (
        le→ltb 10 i slot,
        e,
        lt→ltb (length text) 2147483648 small,
        read_loop-Stored (length text + 1) text stored t (omega arith),
      )
      refl,
)

module _ (s : Fs) (i : ℕ) (bs text : List ℕ) (slot : i ≤ 10) (file : IsOpen s i bs)
    (t : IsText text) (small : length text < 2147483648) where
  emptied-len : Fcb.len ((emptied s i).oft_list i).fcb 0 ≡ 0
  emptied-len = rw (emptied-oft s i) (len-set_len (s.oft_list i).fcb 0 0 (omega arith))

  emptied-len_on_disk : Fcb.len (emptied s i).vd (fcb_on_disk ((emptied s i).oft_list i)) ≡ 0
  emptied-len_on_disk = rw (emptied-oft s i) on_disk
    where
      on_disk : Fcb.len (emptied s i).vd (fcb_on_disk (s.oft_list i)) ≡ 0
      on_disk =
          unfold write_pre_process in len-set_len s.vd (fcb_on_disk (s.oft_list i)) 0 (omega arith)

  emptied-pointer : ((emptied s i).oft_list i).fdt.file_ptr ≡ 0
  emptied-pointer = rw (emptied-oft s i) refl

  emptied-Fits : Fits (emptied s i) i (length text)
  emptied-Fits = (omega (arith, emptied-len), omega (arith, emptied-len_on_disk))

  ReadsBack-of_write :
      (r : Option (ℕ × Fs))
      → DidWrite (emptied s i) i bs (Fcb.s_block ((emptied s i).oft_list i).fcb 0) 0 text r
      → ReadsBack i text r
  ReadsBack-of_write none d = d
  ReadsBack-of_write (some (code, s')) (inr d) = inr d
  ReadsBack-of_write (some (code, s')) (inl (same, w)) = inl (
    same,
    my_read-Stored s' i ((emptied s i).oft_list i).fdt.pdf_block_no w.l w.ls text slot
        (omega (arith, w.longer, emptied-len)) small t (rw w.same_block w.stored),
  )

-- After `writePreProcess` for a rewrite, `do_write` of a text and `my_read` of the same slot print
-- exactly that text, unless the write returned 1 with no block left free.
pub my_read-do_write :
    (s : Fs) (i : ℕ) (bs text : List ℕ)
    → i ≤ 10
    → IsOpen s i bs
    → IsText text
    → length text < 2147483648
    → ReadsBack i text (do_write (write_pre_process s i false) i text)
my_read-do_write s i bs text slot file t small =
    let opened = emptied-IsOpen s i bs file in
    let start = Chain-head opened.chain in
    let ended =
      do_write-DidWrite (emptied s i) i bs text 0 0 opened
        (emptied-pointer s i bs text slot file t small ∙ omega arith) (omega arith) start.1
        (AreBytes-of_text text t) (emptied-Fits s i bs text slot file t small) in
    ReadsBack-of_write s i bs text slot file t small _ (
      subst (λ (b : ℕ). DidWrite (emptied s i) i bs b 0 text (do_write (emptied s i) i text))
        start.0 ended)
