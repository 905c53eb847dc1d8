-- ===== src/FileSystem/Failure.antt =====
-- What the operations of exam5/File_System/main.cpp leave when they fail.
use hdu_os_experiment.Common.{
  ℕ, ◌/◌, ◌≡◌, ◌⊎◌, inl, inr, refl, arith, Bool, true, false, ◌||◌, Option, none, some, List, [],
  ◌∷◌, ◌==◌, if◌then◌else◌, subst,
}
use hdu_os_experiment.Memory.{Mem, str_eq}
use hdu_os_experiment.Memory.Token.{Parts, no_name, name_only, name_ext, split_name}
use hdu_os_experiment.FileSystem.Fcb
use hdu_os_experiment.FileSystem.Fcb.{fcb_size, judge_dir}
use hdu_os_experiment.FileSystem.Fat.{get_block_ptr, get_next_vhd_block, end_mark}
use hdu_os_experiment.FileSystem.Dir.{
  Search, found, not_found, no_end, dir_exname, entry, get_next_fcb,
}
use hdu_os_experiment.FileSystem.Oft.{Fs}
use hdu_os_experiment.FileSystem.Create.{
  create_at, rewound, create_named, only_failure, create_parts, createfile,
}
use hdu_os_experiment.FileSystem.Delete.{
  free_blocks, clear_entry, delete_found, delete_named, delete_nameless, delete_parts, delete_file,
}

-- If the code is 1 the state is `s`, but perhaps for the file pointer of the current file.
abbrev pub Unharmed : Fs → ℕ × Fs → Type 0
Unharmed s (code, s') = code ≡ 1 → (s' ≡ s) ⊎ (s' ≡ rewound s)

abbrev pub UnharmedIfAny : Fs → Option (ℕ × Fs) → Type 0
UnharmedIfAny s none = Unit {0}
UnharmedIfAny s (some r) = Unharmed s r

UnharmedIfAny-if :
    (s : Fs) (b : Bool) (x y : Option (ℕ × Fs))
    → UnharmedIfAny s x
    → UnharmedIfAny s y
    → UnharmedIfAny s (if b then x else y)
UnharmedIfAny-if s true x y h k = h
UnharmedIfAny-if s false x y h k = k

Unharmed-if :
    (s : Fs) (b : Bool) (x y : ℕ × Fs)
    → Unharmed s x
    → Unharmed s y
    → Unharmed s (if b then x else y)
Unharmed-if s true x y h k = h
Unharmed-if s false x y h k = k

create_named-Unharmed :
    (s : Fs) (fname ename : List ℕ) (isdir : Bool) → Unharmed s (create_named s fname ename isdir)
unfolding create_named
create_named-Unharmed s fname ename isdir =
    Unharmed-if s _ (1, rewound s) _ (λ e. inr refl)
      (at_slot
        (get_next_fcb s.vd (get_block_ptr (Fcb.s_block (s.oft_list s.curr_oft_index).fcb 0))))
  where
    at_slot :
        (r : Option ℕ)
        → Unharmed s (elim r as (λ _. ℕ × Fs) [
          | none ↦ (1, rewound s)
          | some offset ↦
              if get_next_vhd_block s.vd == end_mark
              then (1, rewound s)
              else (0, create_at (rewound s) offset (get_next_vhd_block s.vd) fname ename isdir)
        ])
    at_slot none = λ e. inr refl
    at_slot (some offset) =
        Unharmed-if s (get_next_vhd_block s.vd == end_mark) (1, rewound s) _ (λ e. inr refl)
          (λ e. absurd (omega (arith, e)))

only_failure-Unharmed : (s : Fs) (r : ℕ × Fs) → Unharmed s r → UnharmedIfAny s (only_failure r)
unfolding only_failure
only_failure-Unharmed s (code, s') h = UnharmedIfAny-if s (code == 1) (some (code, s')) none h tt

create_parts-Unharmed :
    (s : Fs) (parts : Parts) (isdir : Bool) → UnharmedIfAny s (create_parts s parts isdir)
unfolding create_parts
create_parts-Unharmed s no_name true =
    UnharmedIfAny-if s _ _ none
      (only_failure-Unharmed s (create_named s [] dir_exname true)
        (create_named-Unharmed s [] dir_exname true))
      tt
create_parts-Unharmed s no_name false = λ e. inl refl
create_parts-Unharmed s (name_only fname) true = create_named-Unharmed s fname dir_exname true
create_parts-Unharmed s (name_only fname) false = λ e. inl refl
create_parts-Unharmed s (name_ext fname ename) true = λ e. inl refl
create_parts-Unharmed s (name_ext fname ename) false = create_named-Unharmed s fname ename false

createfile-UnharmedIfAny :
    (s : Fs) (filename : List ℕ) (isdir : Bool) → UnharmedIfAny s (createfile s filename isdir)
unfolding createfile
createfile-UnharmedIfAny s filename isdir =
    UnharmedIfAny-if s (judge_dir (s.oft_list s.curr_oft_index).fcb 0) _ (some (1, s))
      (create_parts-Unharmed s (split_name filename) isdir) (λ e. inl refl)

-- Whatever the name and the state, a `createfile` that returns 1 has changed nothing on the disk and
-- in the slots, but perhaps set the file pointer of the current file to 0.
pub createfile-Unharmed :
    (s s' : Fs) (filename : List ℕ) (isdir : Bool)
    → createfile s filename isdir ≡ some (1, s')
    → (s' ≡ s) ⊎ (s' ≡ rewound s)
createfile-Unharmed s s' filename isdir run =
    subst (UnharmedIfAny s) run (createfile-UnharmedIfAny s filename isdir) refl

delete_found-Unharmed :
    (s : Fs) (r : Search) (isdir : Bool) → UnharmedIfAny s (delete_found (rewound s) r isdir)
unfolding delete_found
delete_found-Unharmed s not_found isdir = λ e. inr refl
delete_found-Unharmed s no_end isdir = tt
delete_found-Unharmed s (found i) isdir = walked (free_blocks s.vd p isdir)
  where
    p : ℕ
    p = entry (get_block_ptr (Fcb.s_block ((rewound s).oft_list s.curr_oft_index).fcb 0)) i

    walked :
        (r : Option Mem)
        → UnharmedIfAny s (elim r as (λ _. Option (ℕ × Fs)) [
          | none ↦ none
          | some m ↦ some (0, clear_entry (rewound s) m p)
        ])
    walked none = tt
    walked (some m) = λ e. absurd (omega (arith, e))

delete_named-Unharmed :
    (s : Fs) (fname ename : List ℕ) (isdir : Bool)
    → UnharmedIfAny s (delete_named s fname ename isdir)
unfolding delete_named
delete_named-Unharmed s fname ename isdir =
    UnharmedIfAny-if s _ _ (some (1, rewound s)) (delete_found-Unharmed s _ isdir) (λ e. inr refl)

delete_nameless-Unharmed : (s : Fs) → UnharmedIfAny s (delete_nameless s)
unfolding delete_nameless
delete_nameless-Unharmed s =
    let o = s.oft_list s.curr_oft_index in
    UnharmedIfAny-if s (judge_dir o.fcb 0)
      (if Fcb.len o.fcb 0 / fcb_size == 0 then some (1, rewound s) else none) (some (1, rewound s))
      (UnharmedIfAny-if s (Fcb.len o.fcb 0 / fcb_size == 0) (some (1, rewound s)) none
        (λ e. inr refl) tt)
      (λ e. inr refl)

delete_parts-Unharmed :
    (s : Fs) (filename : List ℕ) (parts : Parts) (isdir : Bool)
    → UnharmedIfAny s (delete_parts s filename parts isdir)
unfolding delete_parts
delete_parts-Unharmed s filename no_name true =
    UnharmedIfAny-if s (str_eq filename (b'.' ∷ []) || str_eq filename (b'.' ∷ b'.' ∷ []))
      (some (1, s)) (delete_nameless s) (λ e. inl refl) (delete_nameless-Unharmed s)
delete_parts-Unharmed s filename no_name false = λ e. inl refl
delete_parts-Unharmed s filename (name_only fname) true =
    delete_named-Unharmed s fname dir_exname true
delete_parts-Unharmed s filename (name_only fname) false = λ e. inl refl
delete_parts-Unharmed s filename (name_ext fname ename) true = λ e. inl refl
delete_parts-Unharmed s filename (name_ext fname ename) false =
    delete_named-Unharmed s fname ename false

-- Whatever the name and the state, a `deleteFile` that returns 1 has given no block back and cleared no
-- entry; it has changed nothing but perhaps set the file pointer of the current file to 0.
pub delete_file-Unharmed :
    (s s' : Fs) (filename : List ℕ) (isdir : Bool)
    → delete_file s filename isdir ≡ some (1, s')
    → (s' ≡ s) ⊎ (s' ≡ rewound s)
unfolding delete_file
delete_file-Unharmed s s' filename isdir run =
    subst (UnharmedIfAny s) run (delete_parts-Unharmed s filename (split_name filename) isdir) refl
