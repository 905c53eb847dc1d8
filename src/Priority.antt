-- ===== src/Priority.antt =====
-- The system call `mysetnice` of exam1/sys.c, with the calls of that file that it rests on,
-- `setpriority` and `getpriority`.
pub mod Permission
pub mod RoundTrip
mod Examples
use hdu_os_experiment.Common.{
  ℕ, zero, suc, ◌+◌, ◌-◌, Bool, true, false, ◌&&◌, ◌||◌, not, Option, none, some, List, [], ◌∷◌,
  ltb, ◌==◌, if◌then◌else◌, ◌≡◌, ◌≢◌, ◌<◌, ℤ, pos, negsuc,
}

-- The numbers `EPERM`, `ESRCH`, `EACCES`, `EFAULT` and `EINVAL`.
abbrev pub eperm : ℕ
eperm = 1

abbrev pub esrch : ℕ
esrch = 3

abbrev pub eacces : ℕ
eacces = 13

abbrev pub efault : ℕ
efault = 14

abbrev pub einval : ℕ
einval = 22

-- `-e` for an error number `e`.
abbrev pub minus : ℕ → ℤ
minus zero = pos 0
minus (suc e) = negsuc e

-- The nice values of the tasks, each 20 higher, so that they run from 0 to 39. A task is a number, in
-- place of its address.
abbrev pub Nice : Type 0
Nice = ℕ → ℕ

-- What the kernel gives: the calling task, the credentials of each, whether the caller has
-- `CAP_SYS_NICE` over it, `can_nice`, `security_task_setnice` with a number for its error,
-- `set_user_nice`, and the searches. A null pointer has no tasks.
pub record Kernel : Type 0 where
  pub current : ℕ
  pub uid : ℕ → ℕ
  pub euid : ℕ → ℕ
  pub ns_capable : ℕ → Bool
  pub can_nice : ℕ → ℕ → Bool
  pub security_task_setnice : ℕ → ℕ → ℕ
  pub set_user_nice : Nice → ℕ → ℕ → Nice
  pub find_task_by_vpid : ℤ → Option ℕ
  pub group_of : ℤ → List ℕ
  pub current_group : List ℕ
  pub make_kuid : ℤ → ℕ
  pub find_user : ℕ → Bool
  pub threads : List ℕ
  pub is_visible : ℕ → Bool

-- `set_user_nice` sets the nice value of its task to a value in range, and of no other.
pub record SetsNice (k : Kernel) : Type 0 where
  pub sets : (nice : Nice) (p n : ℕ) → n < 40 → k.set_user_nice nice p n p ≡ n
  pub keeps : (nice : Nice) (p n q : ℕ) → q ≢ p → k.set_user_nice nice p n q ≡ nice q

-- `set_one_prio_perm`.
unfoldable pub set_one_prio_perm : Kernel → ℕ → Bool
set_one_prio_perm k p =
    if k.uid p == k.euid k.current || k.euid p == k.euid k.current then true else k.ns_capable p

-- `set_one_prio`: the error as a number, and the nice values.
unfoldable pub set_one_prio : Kernel → Nice → ℕ → ℕ → ℕ → ℕ × Nice
set_one_prio k nice p niceval error =
    let no_nice = k.security_task_setnice p niceval in
    if not (set_one_prio_perm k p)
    then (eperm, nice)
    else if ltb niceval (nice p) && not (k.can_nice p niceval)
    then (eacces, nice)
    else if no_nice == 0
    then (if error == esrch then 0 else error, k.set_user_nice nice p niceval)
    else (no_nice, nice)

-- The loops of `setpriority` over tasks.
unfoldable pub set_each : Kernel → Nice → List ℕ → ℕ → ℕ → ℕ × Nice
set_each k nice [] niceval error = (error, nice)
set_each k nice (p ∷ ps) niceval error =
    let one = set_one_prio k nice p niceval error in set_each k one.1 ps niceval one.0

-- The value is brought between `MIN_NICE` and `MAX_NICE`, 20 higher.
unfoldable pub normalize : ℤ → ℕ
normalize (pos n) = if ltb 19 n then 39 else n + 20
normalize (negsuc n) = if ltb 19 n then 0 else 19 - n

-- `who` of `PRIO_PROCESS`: a task, or none.
abbrev pub task_of : Kernel → ℤ → Option ℕ
task_of k (pos zero) = some k.current
task_of k who = k.find_task_by_vpid who

-- The tasks of `PRIO_PGRP`.
abbrev pub group : Kernel → ℤ → List ℕ
group k (pos zero) = k.current_group
group k who = k.group_of who

-- The user of `PRIO_USER`, or none if it has no processes.
unfoldable pub user_of : Kernel → ℤ → Option ℕ
user_of k (pos zero) = some (k.uid k.current)
user_of k who =
    let uid = k.make_kuid who in
    if uid == k.uid k.current then some uid else if k.find_user uid then some uid else none

-- The threads of a user that the caller sees.
unfoldable pub threads_of : Kernel → ℕ → List ℕ → List ℕ
threads_of k uid [] = []
threads_of k uid (p ∷ ps) =
    let rest = threads_of k uid ps in if k.uid p == uid && k.is_visible p then p ∷ rest else rest

-- The tasks that `which` and `who` stand for; `none` is a `which` that is wrong.
unfoldable pub tasks_of : Kernel → ℤ → ℤ → Option (List ℕ)
tasks_of k (pos zero) who = elim (task_of k who) [ none ↦ some [] | some p ↦ some (p ∷ []) ]
tasks_of k (pos (suc zero)) who = some (group k who)
tasks_of k (pos (suc (suc zero))) who = elim (user_of k who) [
  | none ↦ some []
  | some uid ↦ some (threads_of k uid k.threads)
]
tasks_of k which who = none

-- `setpriority`.
unfoldable pub sys_setpriority : Kernel → Nice → ℤ → ℤ → ℤ → ℤ × Nice
sys_setpriority k nice which who niceval = elim (tasks_of k which who) [
  | none ↦ (minus einval, nice)
  | some ps ↦ let done = set_each k nice ps (normalize niceval) esrch in (minus done.0, done.1)
]

-- `nice_to_rlimit` of `task_nice`.
abbrev pub rlimit_of : ℕ → ℕ
rlimit_of n = 40 - n

-- `if (niceval > retval) retval = niceval;` for a value that is not negative.
unfoldable pub raise : ℤ → ℕ → ℤ
raise (pos r) n = if ltb r n then pos n else pos r
raise (negsuc r) n = pos n

-- The loops of `getpriority` over tasks.
unfoldable pub get_each : Nice → List ℕ → ℤ → ℤ
get_each nice [] retval = retval
get_each nice (p ∷ ps) retval = get_each nice ps (raise retval (rlimit_of (nice p)))

-- `getpriority`.
unfoldable pub sys_getpriority : Kernel → Nice → ℤ → ℤ → ℤ
sys_getpriority k nice which who = elim (tasks_of k which who) [
  | none ↦ minus einval
  | some ps ↦ get_each nice ps (minus esrch)
]

-- The end of the branch of `mysetnice` for the flag 0.
abbrev pub got : ℤ → ℤ
got (pos zero) = pos efault
got (pos (suc n)) = pos (suc n)
got (negsuc n) = pos efault

-- The end of the branch for the flag 1.
abbrev pub set : ℤ → ℤ
set (pos zero) = pos 0
set res = pos efault

-- `mysetnice`.
unfoldable pub mysetnice : Kernel → Nice → ℤ → ℤ → ℤ → ℤ × Nice
mysetnice k nice pid (pos zero) nicevalue = (got (sys_getpriority k nice (pos 0) pid), nice)
mysetnice k nice pid (pos (suc zero)) nicevalue =
    let res = sys_setpriority k nice (pos 0) pid nicevalue in (set res.0, res.1)
mysetnice k nice pid flag nicevalue = (pos efault, nice)
