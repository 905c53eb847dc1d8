-- ===== src/Pipe/Invariant.antt =====
-- What holds in every state of the processes of exam4/3/pipe.c.
use hdu_os_experiment.Common.{
  ℕ, suc, ◌≡◌, refl, arith, Bool, true, false, ◌||◌, none, some, List, [], ◌∷◌, ◌++◌, if◌then◌else◌,
  length, sym,
}
use hdu_os_experiment.Pipe.{
  Who, child1, child2, child3, same, text, message, Child, unborn, closing, printing, writing,
  exiting, exited, Parent, fork1, fork2, fork3, read2, read3, print1, print2, print3, wait_child,
  parent_done, State, take, drop, c_string, read_pipe, Shown, announced, received, shown_text,
}

-- The bytes that children have written.
abbrev pub bytes : List Who → List ℕ
bytes [] = []
bytes (k ∷ ks) = message k ++ bytes ks

-- Their texts, one by one.
abbrev pub texts : List Who → List (List ℕ)
texts [] = []
texts (k ∷ ks) = text k ∷ texts ks

-- How often a child has written.
abbrev pub count : Who → List Who → ℕ
count k [] = 0
count k (j ∷ js) = let rest = count k js in if same k j then suc rest else rest

-- How often it has written, by where it stands.
abbrev pub wrote : Child → ℕ
wrote unborn = 0
wrote closing = 0
wrote printing = 0
wrote writing = 0
wrote exiting = 1
wrote exited = 1

-- How often it has printed its line.
abbrev pub spoke : Child → ℕ
spoke writing = 1
spoke exiting = 1
spoke exited = 1
spoke c = 0

-- The children whose lines are among what was printed, and what the parent printed of it.
abbrev pub speakers : List Shown → List Who
speakers [] = []
speakers (announced k ∷ ss) = k ∷ speakers ss
speakers (received buf ∷ ss) = speakers ss

abbrev pub receipts : List Shown → List (List ℕ)
receipts [] = []
receipts (announced k ∷ ss) = receipts ss
receipts (received buf ∷ ss) = shown_text (received buf) ∷ receipts ss

abbrev pub is_born : Child → Bool
is_born unborn = false
is_born c = true

-- The parent has forked the child.
abbrev pub forked : Parent → Who → Bool
forked fork1 k = false
forked fork2 k = same k child1
forked fork3 k = same k child1 || same k child2
forked p k = true

-- How often the parent has read.
abbrev pub reads : Parent → ℕ
reads (print1 buf) = 1
reads read2 = 1
reads (print2 buf) = 2
reads read3 = 2
reads (print3 buf) = 3
reads wait_child = 3
reads parent_done = 3
reads p = 0

-- What it has read and not yet printed.
abbrev pub held : Parent → List (List ℕ)
held (print1 buf) = shown_text (received buf) ∷ []
held (print2 buf) = shown_text (received buf) ∷ []
held (print3 buf) = shown_text (received buf) ∷ []
held p = []

-- The children `got` have been read, and printed but for what is held, and `rest` are still in the pipe.
pub record Inv (s : State) : Type 0 where
  pub got : List Who
  pub rest : List Who
  pub written : s.written ≡ got ++ rest
  pub pipe : s.pipe ≡ bytes rest
  pub printed : receipts s.printed ++ held s.parent ≡ texts got
  pub said : (k : Who) → count k (speakers s.printed) ≡ spoke (s.children k)
  pub read : length got ≡ reads s.parent
  pub counted : (k : Who) → count k s.written ≡ wrote (s.children k)
  pub born : (k : Who) → is_born (s.children k) ≡ forked s.parent k

pub append_assoc {ℓ} : {A : Type ℓ} → (xs ys zs : List A) → (xs ++ ys) ++ zs ≡ xs ++ (ys ++ zs)
append_assoc [] ys zs = refl
append_assoc (x ∷ xs) ys zs = rw (append_assoc xs ys zs) refl

pub bytes-append : (ks js : List Who) → bytes (ks ++ js) ≡ bytes ks ++ bytes js
bytes-append [] js = refl
bytes-append (k ∷ ks) js =
    rw (bytes-append ks js) (sym (append_assoc (message k) (bytes ks) (bytes js)))

pub texts-append : (ks : List Who) (k : Who) → texts (ks ++ k ∷ []) ≡ texts ks ++ text k ∷ []
texts-append [] k = refl
texts-append (j ∷ ks) k = rw (texts-append ks k) refl

pub length-snoc : (ks : List Who) (k : Who) → length (ks ++ k ∷ []) ≡ suc (length ks)
length-snoc [] k = refl
length-snoc (j ∷ ks) k = rw (length-snoc ks k) refl

pub count-snoc :
    (k j : Who) (ks : List Who)
    → count k (ks ++ j ∷ []) ≡ (if same k j then suc (count k ks) else count k ks)
count-snoc k j [] = refl
count-snoc k j (i ∷ ks) = ground (arith, count-snoc k j ks)

-- One whole message is read.
pub read_pipe-bytes :
    (k : Who) (ks : List Who) → read_pipe (bytes (k ∷ ks)) ≡ some (message k, bytes ks)
unfolding read_pipe take drop
read_pipe-bytes k ks = refl

-- The text of a message is printed whole.
pub c_string-message : (k : Who) → c_string (message k) ≡ text k
unfolding c_string
c_string-message child1 = refl
c_string-message child2 = refl
c_string-message child3 = refl

pub read_pipe-empty : read_pipe [] ≡ none
unfolding read_pipe
read_pipe-empty = refl

pub append_nil {ℓ} : {A : Type ℓ} → (xs : List A) → xs ++ [] ≡ xs
append_nil [] = refl
append_nil (x ∷ xs) = rw (append_nil xs) refl

pub speakers-announced :
    (ss : List Shown) (k : Who) → speakers (ss ++ announced k ∷ []) ≡ speakers ss ++ k ∷ []
speakers-announced [] k = refl
speakers-announced (announced j ∷ ss) k = rw (speakers-announced ss k) refl
speakers-announced (received buf ∷ ss) k = speakers-announced ss k

pub speakers-received :
    (ss : List Shown) (buf : List ℕ) → speakers (ss ++ received buf ∷ []) ≡ speakers ss
speakers-received [] buf = refl
speakers-received (announced j ∷ ss) buf = rw (speakers-received ss buf) refl
speakers-received (received b ∷ ss) buf = speakers-received ss buf

pub receipts-announced :
    (ss : List Shown) (k : Who) → receipts (ss ++ announced k ∷ []) ≡ receipts ss
receipts-announced [] k = refl
receipts-announced (announced j ∷ ss) k = receipts-announced ss k
receipts-announced (received buf ∷ ss) k = rw (receipts-announced ss k) refl

pub receipts-received :
    (ss : List Shown) (buf : List ℕ)
    → receipts (ss ++ received buf ∷ []) ≡ receipts ss ++ c_string buf ∷ []
receipts-received [] buf = refl
receipts-received (announced j ∷ ss) buf = receipts-received ss buf
receipts-received (received b ∷ ss) buf = rw (receipts-received ss buf) refl
