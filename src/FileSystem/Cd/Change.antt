-- ===== src/FileSystem/Cd/Change.antt =====
-- `my_cd` of exam5/File_System/main.cpp to the directory above, and to the root directory.
use hdu_os_experiment.Common.{
  ℕ, suc, ◌+◌, ◌/◌, ◌≡◌, refl, arith, true, Option, none, some, List, [], ◌∷◌, ne→==, subst, sym,
  ◌∙◌, ap, length,
}
use hdu_os_experiment.Memory.{read_str, str_eq}
use hdu_os_experiment.Memory.Token.{strtok, token, after_token, skip_delims}
use hdu_os_experiment.FileSystem.Fcb
use hdu_os_experiment.FileSystem.Fcb.{judge_dir}
use hdu_os_experiment.FileSystem.Fat.{get_block_ptr}
use hdu_os_experiment.FileSystem.Dir.{entry, dir_exname, found}
use hdu_os_experiment.FileSystem.Dir.Used.{used}
use hdu_os_experiment.FileSystem.Dir.Lookup.{first_wanted}
use hdu_os_experiment.FileSystem.Oft.{Fs}
use hdu_os_experiment.FileSystem.Create.File.{current, here}
use hdu_os_experiment.FileSystem.Open.{my_close}
use hdu_os_experiment.FileSystem.Open.Stack.{IsStack, Popped, my_close-Popped}
use hdu_os_experiment.FileSystem.Cd.{
  Flag, done, open_entry, leave, open_curpath, close_all, cd_part, cd_loop, my_cd,
}
use hdu_os_experiment.FileSystem.Cd.Leave.{close_all-root}
use hdu_os_experiment.FileSystem.Cd.Path.{opens_entry, open_curpath-first_wanted}

abbrev pub dot : List ℕ
dot = b'.' ∷ []

abbrev pub dot_dot : List ℕ
dot_dot = b'.' ∷ b'.' ∷ []

abbrev pub root_text : List ℕ
root_text = b'r' ∷ b'o' ∷ b'o' ∷ b't' ∷ []

-- The current directory counts its entries, and entry `k` is the first directory of the name.
pub record HasEntry (s : Fs) (name : List ℕ) (k : ℕ) : Type 0 where
  pub is_dir : judge_dir (current s).fcb 0 ≡ true
  pub counts : used 32 s.vd (get_block_ptr (here s)) 0 ≡ Fcb.len (current s).fcb 0 / 32 + 2
  pub first : first_wanted s.vd (get_block_ptr (here s)) name dir_exname true 32 0 ≡ found k
  pub named : read_str s.vd (entry (get_block_ptr (here s)) k) 8 ≡ name

open_curpath-entry :
    (s : Fs) (name : List ℕ) (k : ℕ) → HasEntry s name k → open_curpath s name ≡ open_entry s k name
open_curpath-entry s name k h =
    open_curpath-first_wanted s name h.is_dir h.counts ∙ ap (opens_entry s name) h.first

open_curpath-dot : (s : Fs) (k : ℕ) → HasEntry s dot k → open_curpath s dot ≡ some (done, s)
unfolding open_entry str_eq
open_curpath-dot s k h = open_curpath-entry s dot k h ∙ rw (open_entry, h.named) refl

-- The end of `leave`.
left_by : Option ℕ × Fs → Option (Flag × Fs)
left_by (none, s) = none
left_by (some pi, s) = some (done, record s { curr_oft_index = pi })

leave-left_by : (s : Fs) (r : Option ℕ × Fs) → my_close s s.curr_oft_index ≡ r → leave s ≡ left_by r
unfolding leave left_by
leave-left_by s r e = by_close (my_close s s.curr_oft_index) ∙ ap left_by e
  where
    by_close :
        (r : Option ℕ × Fs)
        → (elim r.0 as (λ _. Option (Flag × Fs)) [
          | none ↦ none
          | some pi ↦ some (done, record (r.1) { curr_oft_index = pi })
        ])
          ≡ left_by r
    by_close (none, s') = refl
    by_close (some pi, s') = refl

leave-Popped :
    (s : Fs) (d : ℕ) (r : Option ℕ × Fs)
    → my_close s s.curr_oft_index ≡ r
    → Popped d r
    → (s' : Fs) × (leave s ≡ some (done, s')) × (s'.curr_oft_index ≡ d) × IsStack s'.oft_list d
unfolding left_by
leave-Popped s d (none, s') e h = absurd h
leave-Popped s d (some pi, s') e h =
    (record s' { curr_oft_index = pi }, leave-left_by s (some pi, s') e, h.0, h.2)

open_curpath-dot_dot :
    (s : Fs) (d k : ℕ)
    → s.curr_oft_index ≡ suc d
    → IsStack s.oft_list (suc d)
    → HasEntry s dot_dot k
    → (s' : Fs) × (open_curpath s dot_dot ≡ some (done, s'))
      × (s'.curr_oft_index ≡ d)
      × IsStack s'.oft_list d
unfolding open_entry str_eq
open_curpath-dot_dot s d k at st h =
    let popped = subst (λ c. Popped d (my_close s c)) (sym at) (my_close-Popped s d st) in
    let left = leave-Popped s d (my_close s s.curr_oft_index) refl popped in
    (
      left.0,
      open_curpath-entry s dot_dot k h
          ∙ rw (open_entry, h.named, ne→== s.curr_oft_index 0 (omega (arith, at))) left.1,
      left.2,
      left.3,
    )

strtok-nil : strtok 92 [] ≡ none
unfolding strtok skip_delims
strtok-nil = refl

-- A path of one part.
cd_loop-part :
    (n : ℕ) (s s' : Fs) (path : List ℕ)
    → strtok 92 path ≡ some (path, [])
    → cd_part s path ≡ some (done, s')
    → cd_loop (suc (suc n)) s path done ≡ some (done, s')
unfolding cd_loop
cd_loop-part n s s' path whole part = rw (cd_loop, whole, part, nothing) refl
  where
    nothing : strtok 92 [] ≡ none
    nothing = strtok-nil

my_cd-part :
    (rounds n : ℕ) (s s' : Fs) (path : List ℕ)
    → length path + 1 ≡ suc (suc n)
    → strtok 92 path ≡ some (path, [])
    → cd_part s path ≡ some (done, s')
    → my_cd (suc rounds) s path ≡ some s'
unfolding my_cd
my_cd-part rounds n s s' path e whole part = rw (my_cd, e, cd_loop-part n s s' path whole part) refl

-- With the slots a stack of more than the root directory, and the first directory of the name ".." an
-- entry of that very name, `my_cd` of ".." ends with the slot below the top as the current one, and
-- the slots a stack up to it.
pub my_cd-dot_dot :
    (rounds : ℕ) (s : Fs) (d k : ℕ)
    → s.curr_oft_index ≡ suc d
    → IsStack s.oft_list (suc d)
    → HasEntry s dot_dot k
    → (s' : Fs) × (my_cd (suc rounds) s dot_dot ≡ some s')
      × (s'.curr_oft_index ≡ d)
      × IsStack s'.oft_list d
unfolding cd_part strtok skip_delims token after_token str_eq
my_cd-dot_dot rounds s d k at st h =
    let up = open_curpath-dot_dot s d k at st h in
    (up.0, my_cd-part rounds 1 s up.0 dot_dot refl refl up.1, up.2, up.3)

-- With the slots a stack, and the root directory with an entry "." as its first directory of that name
-- once all other files are closed, `my_cd` of "root" ends with the root directory as the current one,
-- and no other slot in use.
pub my_cd-root :
    (rounds k : ℕ) (s : Fs)
    → IsStack s.oft_list s.curr_oft_index
    → ((s' : Fs) → close_all 10 s ≡ some s' → HasEntry s' dot k)
    → (s' : Fs) × (my_cd (suc rounds) s root_text ≡ some s')
      × (s'.curr_oft_index ≡ 0)
      × IsStack s'.oft_list 0
unfolding cd_part strtok skip_delims token after_token str_eq
my_cd-root rounds k s st h =
    let closed = close_all-root 10 s.curr_oft_index s refl st st.depth in
    let opened = open_curpath-dot closed.0 k (h closed.0 closed.1) in
    (
      closed.0,
      my_cd-part rounds 3 s closed.0 root_text refl refl (rw (cd_part, closed.1) opened),
      closed.2,
      closed.3,
    )
