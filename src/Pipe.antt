-- ===== src/Pipe.antt =====
-- The processes of exam4/3/pipe.c: three children write a text each to a pipe, and their parent reads
-- three times and prints.
pub mod Invariant
pub mod Births
pub mod Steps
pub mod Countdown
pub mod Progress
pub mod Ends
mod Examples
use hdu_os_experiment.Common.{
  ℕ, zero, suc, ◌+◌, ◌≡◌, Bool, true, false, ◌||◌, Option, none, some, List, [], ◌∷◌, ◌++◌, ◌==◌,
  if◌then◌else◌,
}

-- The three children.
pub data Who : Type 0 where
  child1 : Who
  child2 : Who
  child3 : Who

unfoldable pub same : Who → Who → Bool
same child1 child1 = true
same child2 child2 = true
same child3 child3 = true
same j k = false

-- The value of `sizeof (s)` and of `sizeof (buf)`.
abbrev pub size : ℕ
size = 30

abbrev pub digit : Who → ℕ
digit child1 = b'1'
digit child2 = b'2'
digit child3 = b'3'

-- What a child prints into the pipe, "this is write by child1.\n" for the first.
abbrev pub text : Who → List ℕ
text k =
    b't'
    ∷ b'h'
    ∷ b'i'
    ∷ b's'
    ∷ b' '
    ∷ b'i'
    ∷ b's'
    ∷ b' '
    ∷ b'w'
    ∷ b'r'
    ∷ b'i'
    ∷ b't'
    ∷ b'e'
    ∷ b' '
    ∷ b'b'
    ∷ b'y'
    ∷ b' '
    ∷ b'c'
    ∷ b'h'
    ∷ b'i'
    ∷ b'l'
    ∷ b'd'
    ∷ digit k
    ∷ b'.'
    ∷ 10
    ∷ []

-- The array `s`, whose other elements are 0.
abbrev pub message : Who → List ℕ
message k = text k ++ 0 ∷ 0 ∷ 0 ∷ 0 ∷ 0 ∷ []

-- A child that is not yet there, at its `close` of the end for reading, at its `printf`, at its
-- `write`, at its `exit`, and after it.
pub data Child : Type 0 where
  unborn : Child
  closing : Child
  printing : Child
  writing : Child
  exiting : Child
  exited : Child

-- The parent at each `fork`, at the `close` of the end for writing, at each `read`, at the
-- `printf` of what that has read, at its `wait`, and after it.
pub data Parent : Type 0 where
  fork1 : Parent
  fork2 : Parent
  fork3 : Parent
  close_write : Parent
  read1 : Parent
  print1 : List ℕ → Parent
  read2 : Parent
  print2 : List ℕ → Parent
  read3 : Parent
  print3 : List ℕ → Parent
  wait_child : Parent
  parent_done : Parent

-- What `printf ("%s", buf)` prints.
unfoldable pub c_string : List ℕ → List ℕ
c_string [] = []
c_string (c ∷ cs) = let rest = c_string cs in if c == 0 then [] else c ∷ rest

-- What one `printf` printed: the line of a child, or what the parent has read.
pub data Shown : Type 0 where
  announced : Who → Shown
  received : List ℕ → Shown

-- What a `printf` puts on the terminal, "child1" and a newline from the first child.
abbrev pub shown_text : Shown → List ℕ
shown_text (announced k) = b'c' ∷ b'h' ∷ b'i' ∷ b'l' ∷ b'd' ∷ digit k ∷ 10 ∷ []
shown_text (received buf) = c_string buf

-- The bytes in the pipe, the processes, the children that have written, in their order, and what has
-- been printed, in the order of the calls.
pub record State : Type 0 where
  pub pipe : List ℕ
  pub children : Who → Child
  pub parent : Parent
  pub written : List Who
  pub printed : List Shown

abbrev pub init : State
init = record { pipe = []; children = λ k. unborn; parent = fork1; written = []; printed = [] }

unfoldable pub set_child : (Who → Child) → Who → Child → Who → Child
set_child c k v j = if same j k then v else c j

unfoldable pub take {ℓ} : {A : Type ℓ} → ℕ → List A → List A
take zero xs = []
take (suc n) [] = []
take (suc n) (x ∷ xs) = x ∷ take n xs

unfoldable pub drop {ℓ} : {A : Type ℓ} → ℕ → List A → List A
drop zero xs = xs
drop (suc n) [] = []
drop (suc n) (x ∷ xs) = drop n xs

-- `read` of up to 30 bytes: the bytes and what is left. `none` means that there are none: the call
-- waits, or, if no process can write, returns 0, and what is printed then is not described.
unfoldable pub read_pipe : List ℕ → Option (List ℕ × List ℕ)
read_pipe [] = none
read_pipe (c ∷ cs) = some (take size (c ∷ cs), drop size (c ∷ cs))

-- `read`, after which the parent is at the `printf` of the buffer.
unfoldable pub read_buf : State → (List ℕ → Parent) → Option State
read_buf s next = elim (read_pipe s.pipe) [
  | none ↦ none
  | some (buf, rest) ↦ some (record s { pipe = rest; parent = next buf })
]

-- `printf ("%s", buf)`.
abbrev pub print_buf : State → List ℕ → Parent → State
print_buf s buf next = record s { parent = next; printed = s.printed ++ received buf ∷ [] }

abbrev pub is_exited : Child → Bool
is_exited exited = true
is_exited c = false

-- A `fork` that succeeds.
abbrev pub fork : State → Who → Parent → State
fork s k next = record s { children = set_child s.children k closing; parent = next }

-- The next call of the parent; `none` means that it waits or has ended.
unfoldable pub parent_step : Parent → State → Option State
parent_step fork1 s = some (fork s child1 fork2)
parent_step fork2 s = some (fork s child2 fork3)
parent_step fork3 s = some (fork s child3 close_write)
parent_step close_write s = some (record s { parent = read1 })
parent_step read1 s = read_buf s print1
parent_step (print1 buf) s = some (print_buf s buf read2)
parent_step read2 s = read_buf s print2
parent_step (print2 buf) s = some (print_buf s buf read3)
parent_step read3 s = read_buf s print3
parent_step (print3 buf) s = some (print_buf s buf wait_child)
parent_step wait_child s =
    if is_exited (s.children child1)
      || (is_exited (s.children child2) || is_exited (s.children child3))
    then some (record s { parent = parent_done })
    else none
parent_step parent_done s = none

-- The next call of a child. A `write` of 30 bytes is not divided.
unfoldable pub child_step : Child → Who → State → Option State
child_step unborn k s = none
child_step closing k s = some (record s { children = set_child s.children k printing })
child_step printing k s = some (record s {
  children = set_child s.children k writing;
  printed = s.printed ++ announced k ∷ [];
})
child_step writing k s = some (record s {
  pipe = s.pipe ++ message k;
  children = set_child s.children k exiting;
  written = s.written ++ k ∷ [];
})
child_step exiting k s = some (record s { children = set_child s.children k exited })
child_step exited k s = none

-- One call of one process.
pub data Step (s t : State) : Type 0 where
  by_parent : parent_step s.parent s ≡ some t → Step s t
  by_child : (k : Who) → child_step (s.children k) k s ≡ some t → Step s t

-- The states after so many calls.
pub data Reach : ℕ → State → Type 0 where
  start : Reach 0 init
  later : {n : ℕ} {s t : State} → Reach n s → Step s t → Reach (suc n) t
