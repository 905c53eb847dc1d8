-- ===== src/FileSystem/Command/Dispatch.antt =====
-- Which command a word is, and how the program ends.
use hdu_os_experiment.Common.{
  ℕ, zero, suc, ◌+◌, ◌-◌, ◌≤◌, ◌<◌, ◌≡◌, ◌≢◌, ◌↔◌, refl, arith, Bool, true, false, Option, none,
  some, List, [], ◌∷◌, ◌==◌, if◌then◌else◌, get_or, length, Bool-cases, inl, inr, sym,
}
use hdu_os_experiment.Memory.{Mem, str_eq}
use hdu_os_experiment.Memory.Text.{str_eq_iff}
use hdu_os_experiment.Memory.Token.{strtok}
use hdu_os_experiment.FileSystem.Oft.{Fs}
use hdu_os_experiment.FileSystem.Control.{my_ctrl}
use hdu_os_experiment.FileSystem.Listing.{Line}
use hdu_os_experiment.FileSystem.Input.{skip_line}
use hdu_os_experiment.FileSystem.Open.Stack.{IsStack}
use hdu_os_experiment.FileSystem.Session.{my_exit_sys}
use hdu_os_experiment.FileSystem.Session.Saved.{my_exit_sys-saves}
use hdu_os_experiment.FileSystem.Command.{
  cmds, find_cmd, get_index_of_cmd, World, Host, with_fs, with_file, with_input, with_text,
  with_lines, with_cd, given, on_file, on_directory, ask_ctrl, run_cmd, excute_cmd, run_lines,
}

-- What the search from index `i` finds in the names `names`.
find_cmd_sound :
    (names : List (List ℕ)) (i k : ℕ) (cmd : List ℕ)
    → find_cmd names i cmd ≡ some k
    → (i ≤ k) × (k < i + length names) × (get_or names (k - i) [] ≡ cmd)
unfolding find_cmd
find_cmd_sound [] i k cmd h = cc
find_cmd_sound (c ∷ names) i k cmd h = elim (Bool-cases (str_eq c cmd)) [
  | inl hit ↦
      let at : k ≡ i = ground arith in
      let start : k - i ≡ 0 = omega (arith, at) in
      (omega (arith, at), omega (arith, at), rw start ((str_eq_iff c cmd).0 hit))
  | inr miss ↦
      let later = find_cmd_sound names (i + 1) k cmd (rw miss at h) in
      let next : k - i ≡ suc (k - (i + 1)) = omega (arith, later.0) in
      (omega (arith, later.0), omega (arith, later.1), rw next later.2)
]

pub get_index_of_cmd-cmds : (i : ℕ) → i < 15 → get_index_of_cmd (some (get_or cmds i [])) ≡ some i
unfolding get_index_of_cmd find_cmd str_eq
get_index_of_cmd-cmds zero h = refl
get_index_of_cmd-cmds (suc zero) h = refl
get_index_of_cmd-cmds (suc (suc zero)) h = refl
get_index_of_cmd-cmds (suc (suc (suc zero))) h = refl
get_index_of_cmd-cmds (suc (suc (suc (suc zero)))) h = refl
get_index_of_cmd-cmds (suc (suc (suc (suc (suc zero))))) h = refl
get_index_of_cmd-cmds (suc (suc (suc (suc (suc (suc zero)))))) h = refl
get_index_of_cmd-cmds (suc (suc (suc (suc (suc (suc (suc zero))))))) h = refl
get_index_of_cmd-cmds (suc (suc (suc (suc (suc (suc (suc (suc zero)))))))) h = refl
get_index_of_cmd-cmds (suc (suc (suc (suc (suc (suc (suc (suc (suc zero))))))))) h = refl
get_index_of_cmd-cmds (suc (suc (suc (suc (suc (suc (suc (suc (suc (suc zero)))))))))) h = refl
get_index_of_cmd-cmds (suc (suc (suc (suc (suc (suc (suc (suc (suc (suc (suc zero))))))))))) h =
    refl
get_index_of_cmd-cmds (suc (suc (suc (suc (suc (suc (suc (suc (suc (suc (suc (suc zero))))))))))))
      h =
    refl
get_index_of_cmd-cmds
      (suc (suc (suc (suc (suc (suc (suc (suc (suc (suc (suc (suc (suc zero))))))))))))) h =
    refl
get_index_of_cmd-cmds
      (suc (suc (suc (suc (suc (suc (suc (suc (suc (suc (suc (suc (suc (suc zero)))))))))))))) h =
    refl
get_index_of_cmd-cmds
      (suc (suc (suc (suc (suc (suc (suc (suc (suc (suc (suc (suc (suc (suc (suc i)))))))))))))))
      h =
    absurd (omega arith)

-- `getIndexOfCmd` of a word that is not empty gives `i` exactly if `i` is less than 15 and the word is
-- the command of that index.
get_index_of_cmd_iff :
    (c i : ℕ) (cs : List ℕ)
    → (get_index_of_cmd (some (c ∷ cs)) ≡ some i) ↔ ((i < 15) × (get_or cmds i [] ≡ c ∷ cs))
get_index_of_cmd_iff c i cs = (
  λ h.
      let found = find_cmd_sound cmds 0 i (c ∷ cs) (unfold get_index_of_cmd in h) in
      let whole : i - 0 ≡ i = omega arith in (omega (arith, found.1), rw whole at found.2),
  λ h. rw (sym h.1) (get_index_of_cmd-cmds i h.0),
)

-- The program goes on: the flag is as it was.
abbrev Keeps : World → Option World → Type 0
Keeps w none = Unit {0}
Keeps w (some w') = w'.flag ≡ w.flag

Keeps-if :
    (w : World) (b : Bool) (x y : Option World)
    → (b ≡ true → Keeps w x)
    → Keeps w y
    → Keeps w (if b then x else y)
Keeps-if w true x y h k = h refl
Keeps-if w false x y h k = k

Keeps-with_fs : {A : Type 0} (w : World) (r : Option (A × Fs)) → Keeps w (with_fs w r)
Keeps-with_fs w none = tt
Keeps-with_fs w (some (code, s)) = refl

Keeps-with_file : (w : World) (r : Option (Mem × Fs)) → Keeps w (with_file w r)
Keeps-with_file w none = tt
Keeps-with_file w (some (file, s)) = refl

Keeps-with_input : (w : World) (r : Option (ℕ × List ℕ × Fs)) → Keeps w (with_input w r)
Keeps-with_input w none = tt
Keeps-with_input w (some (code, input, s)) = refl

Keeps-with_text : (w : World) (r : Option ((ℕ × List ℕ) × Fs)) → Keeps w (with_text w r)
Keeps-with_text w none = tt
Keeps-with_text w (some ((code, out), s)) = refl

Keeps-with_lines : (w : World) (r : Option (List Line × Fs)) → Keeps w (with_lines w r)
Keeps-with_lines w none = refl
Keeps-with_lines w (some (out, s)) = refl

Keeps-with_cd : (w : World) (r : Option Fs) → Keeps w (with_cd w r)
Keeps-with_cd w none = tt
Keeps-with_cd w (some s) = refl

Keeps-given :
    (w : World) (arg : Option (List ℕ)) (f : List ℕ → Option World)
    → ((a : List ℕ) → Keeps w (f a))
    → Keeps w (given w arg f)
Keeps-given w none f h = refl
Keeps-given w (some a) f h = h a

Keeps-on_file : (w : World) (r : Option World) → Keeps w r → Keeps w (on_file w r)
Keeps-on_file w r h = Keeps-if w _ (some w) r (λ e. refl) h

Keeps-on_directory : (w : World) (r : Option World) → Keeps w r → Keeps w (on_directory w r)
Keeps-on_directory w r h = Keeps-if w _ r (some w) (λ e. h) refl

Keeps-ask_ctrl : (h : Host) (w : World) (a : List ℕ) → Keeps w (ask_ctrl h w a)
unfolding ask_ctrl
Keeps-ask_ctrl h w a =
    Keeps-with_fs (record w { input = skip_line (h.scan w.input).1 })
      (my_ctrl w.fs a (h.scan w.input).0)

-- Of the commands only `my_exitsys`, of index 11, takes the flag down.
run_cmd-Keeps :
    (h : Host) (w : World) (cmd : Option ℕ) (arg : Option (List ℕ))
    → cmd ≢ some 11
    → Keeps w (run_cmd h w cmd arg)
unfolding run_cmd
run_cmd-Keeps h w none arg ne = refl
run_cmd-Keeps h w (some cmd) arg ne =
    Keeps-if w (cmd == 0) _ _ (λ e. Keeps-with_file w _)
      (Keeps-if w (cmd == 1) _ _ (λ e. Keeps-given w arg _ λ a. Keeps-with_fs w _)
        (Keeps-if w (cmd == 2) _ _ (λ e. Keeps-given w arg _ λ a. Keeps-with_fs w _)
          (Keeps-if w (cmd == 3) _ _ (λ e. Keeps-with_lines w _)
            (Keeps-if w (cmd == 4) _ _ (λ e. Keeps-given w arg _ λ a. Keeps-with_cd w _)
              (Keeps-if w (cmd == 5) _ _ (λ e. Keeps-given w arg _ λ a. Keeps-with_fs w _)
                (Keeps-if w (cmd == 6) _ _ (λ e. Keeps-given w arg _ λ a. Keeps-with_fs w _)
                  (Keeps-if w (cmd == 7) _ _ (λ e. Keeps-given w arg _ λ a. Keeps-with_fs w _)
                    (Keeps-if w (cmd == 8) _ _ (λ e. Keeps-on_file w _ refl)
                      (Keeps-if w (cmd == 9) _ _ (λ e. Keeps-on_file w _ (Keeps-with_input w _))
                        (Keeps-if w (cmd == 10) _ _ (λ e. Keeps-on_file w _ (Keeps-with_text w _))
                          (Keeps-if w (cmd == 11) _ _ (λ e. absurd (ne (ground arith)))
                            (Keeps-if w (cmd == 12) _ _
                              (λ e.
                                Keeps-on_directory w _
                                  (Keeps-given w arg _ λ a. Keeps-ask_ctrl h w a))
                              refl))))))))))))

-- While the command is not `my_exitsys`, the loop of `main` goes on to the next line.
run_cmd-flag :
    (h : Host) (w w' : World) (cmd : Option ℕ) (arg : Option (List ℕ))
    → cmd ≢ some 11
    → run_cmd h w cmd arg ≡ some w'
    → w'.flag ≡ w.flag
run_cmd-flag h w w' cmd arg ne run = rw run at (run_cmd-Keeps h w cmd arg ne)

-- The world that `my_exitsys` leaves.
abbrev left : Host → World → Fs → World
left h w s = record w { fs = s; file = some (h.disk.fwrite s.vd); flag = false }

run_cmd-exit :
    (h : Host) (w : World) (arg : Option (List ℕ)) (s : Fs)
    → h.disk.opens ≡ true
    → my_exit_sys h.disk w.fs ≡ some (h.disk.fwrite s.vd, s)
    → run_cmd h w (some 11) arg ≡ some (left h w s)
unfolding run_cmd
run_cmd-exit h w arg s opens run = rw run refl

excute_cmd-exit :
    (h : Host) (w : World) (line rest : List ℕ) (s : Fs)
    → h.disk.opens ≡ true
    → strtok 32 line ≡ some (get_or cmds 11 [], rest)
    → my_exit_sys h.disk w.fs ≡ some (h.disk.fwrite s.vd, s)
    → (arg : Option (List ℕ × List ℕ)) → strtok 32 rest ≡ arg
    → excute_cmd h w line ≡ some (left h w s)
unfolding excute_cmd get_index_of_cmd find_cmd str_eq
excute_cmd-exit h w line rest s opens word run none e =
    rw (excute_cmd, word, e) (run_cmd-exit h w none s opens run)
excute_cmd-exit h w line rest s opens word run (some (arg, more)) e =
    rw (excute_cmd, word, e) (run_cmd-exit h w (some arg) s opens run)

run_lines-left :
    (h : Host) (w : World) (s : Fs) (more : List (List ℕ))
    → run_lines h (left h w s) more ≡ some (left h w s)
unfolding run_lines
run_lines-left h w s [] = refl
run_lines-left h w s (line ∷ more) = refl

-- With the slots a stack and a host's file that can be opened, a line whose first word is `my_exitsys`
-- ends the loop of `main`, whatever lines follow: the flag is down, the root directory is the
-- current one, and the host's file holds what `fwrite` of the disk gives.
pub run_lines-exit :
    (h : Host) (w : World) (line rest : List ℕ) (more : List (List ℕ))
    → w.flag ≡ true
    → h.disk.opens ≡ true
    → strtok 32 line ≡ some (get_or cmds 11 [], rest)
    → IsStack w.fs.oft_list w.fs.curr_oft_index
    → (w' : World) × (run_lines h w (line ∷ more) ≡ some w')
      × (w'.flag ≡ false)
      × (w'.fs.curr_oft_index ≡ 0)
      × (w'.file ≡ some (h.disk.fwrite w'.fs.vd))
unfolding run_lines
run_lines-exit h w line rest more up opens word st =
    let saved = my_exit_sys-saves h.disk w.fs opens st in
    let s = saved.0 in
    (
      left h w s,
      rw (run_lines, up, excute_cmd-exit h w line rest s opens word saved.2 (strtok 32 rest) refl)
          (run_lines-left h w s more),
      refl,
      saved.3,
      refl,
    )
