-- ===== src/ProcessList.antt =====
-- The kernel modules exam2/1/first.c and exam2/2/second.c, which print tasks of the kernel.
pub mod Ring
pub mod Listed
mod Examples
use hdu_os_experiment.Common.{ℕ, ℤ, Bool, if◌then◌else◌, Option, none, some, List, [], ◌∷◌}

-- What the modules read of a `struct task_struct`; `has_mm` is `p->mm != NULL`.
pub record Task : Type 0 where
  pub comm : List ℕ
  pub pid : ℤ
  pub state : ℤ
  pub prio : ℤ
  pub has_mm : Bool
  pub parent : ℕ

-- A task is known by the number that stands for its address. Two list heads lie in it.
pub data Node : Type 0 where
  sibling : ℕ → Node
  children : ℕ → Node

-- What the kernel gives: the tasks, the task of a process number, the tasks that `for_each_process`
-- visits, and the list heads that `list_for_each` visits from one on.
pub record Kernel : Type 0 where
  pub tasks : ℕ → Task
  pub pid_task : ℤ → Option ℕ
  pub for_each_process : List ℕ
  pub list_for_each : Node → List Node

-- One printed line: name, number, state and priority.
pub record Row : Type 0 where
  pub comm : List ℕ
  pub pid : ℤ
  pub state : ℤ
  pub prio : ℤ

unfoldable pub row : Task → Row
row t = record { comm = t.comm; pid = t.pid; state = t.state; prio = t.prio }

-- The line for `list_entry (node, struct task_struct, sibling)`. With a list head that is not the
-- member `sibling` of a task, `none`: the bytes around it are printed as if they were a task.
unfoldable pub entry_row : Kernel → Node → Option Row
entry_row k (sibling t) = some (row (k.tasks t))
entry_row k (children t) = none

-- The loops over `list_for_each`.
unfoldable pub entry_rows : Kernel → List Node → List (Option Row)
entry_rows k [] = []
entry_rows k (n ∷ ns) = entry_row k n ∷ entry_rows k ns

-- The loop of `fir_init`.
unfoldable pub print_without_mm : Kernel → List ℕ → List Row
print_without_mm k [] = []
print_without_mm k (t ∷ ts) =
    let rest = print_without_mm k ts in if (k.tasks t).has_mm then rest else row (k.tasks t) ∷ rest

-- `fir_init`: the lines that it prints.
unfoldable pub fir_init : Kernel → List Row
fir_init k = print_without_mm k k.for_each_process

-- What `sec_init` prints.
pub record Printed : Type 0 where
  pub parent : Row
  pub siblings : List (Option Row)
  pub children : List (Option Row)

-- `sec_init` with the module's parameter `pid`. `none` is undefined behaviour: there is no such task,
-- and the parent of a null pointer is read.
unfoldable pub sec_init : Kernel → ℤ → Option Printed
sec_init k pid = elim (k.pid_task pid) [
  | none ↦ none
  | some p ↦ some (record {
    parent = row (k.tasks (k.tasks p).parent);
    siblings = entry_rows k (k.list_for_each (sibling p));
    children = entry_rows k (k.list_for_each (children p));
  })
]
