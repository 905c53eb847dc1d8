-- ===== src/Priority/Examples.antt =====
-- A kernel with two tasks, on which the theorems about exam1/sys.c are applied.
use hdu_os_experiment.Common.{
  ℤ, pos, negsuc, ℕ, ◌≡◌, refl, true, false, Option, none, some, [], ◌∷◌, ◌==◌, if◌then◌else◌, ◌-◌,
  ne→==, eq→==,
}
use hdu_os_experiment.Priority.{
  Nice, Kernel, SetsNice, set_one_prio_perm, set_one_prio, set_each, normalize, tasks_of,
  sys_setpriority, mysetnice,
}
use hdu_os_experiment.Priority.Permission.{Guarded, sys_setpriority-Guarded}
use hdu_os_experiment.Priority.RoundTrip.{SetsOrFails, mysetnice-SetsOrFails, mysetnice-set-get}

abbrev find : ℤ → Option ℕ
find (pos p) = some p
find (negsuc p) = none

-- The tasks 1 and 2 of the users 100 and 200; the first one calls.
abbrev kernel : Kernel
kernel = record {
  current = 1;
  uid = λ p. if p == 1 then 100 else 200;
  euid = λ p. if p == 1 then 100 else 200;
  ns_capable = λ p. false;
  can_nice = λ p n. false;
  security_task_setnice = λ p n. 0;
  set_user_nice = λ nice p n q. if q == p then n else nice q;
  find_task_by_vpid = find;
  group_of = λ who. 1 ∷ 2 ∷ [];
  current_group = 1 ∷ 2 ∷ [];
  make_kuid = λ who. 200;
  find_user = λ uid. true;
  threads = 1 ∷ 2 ∷ [];
  is_visible = λ p. true;
}

kernel-SetsNice : SetsNice kernel
kernel-SetsNice = record {
  sets = λ nice p n h. rw (eq→== p p refl) refl;
  keeps = λ nice p n q h. rw (ne→== q p h) refl;
}

abbrev zeros : Nice
zeros p = 20

mysetnice-SetsOrFails_example :
    SetsOrFails (some 1) zeros (pos 5) (mysetnice kernel zeros (pos 1) (pos 1) (pos 5))
mysetnice-SetsOrFails_example = mysetnice-SetsOrFails kernel zeros (pos 1) (pos 5) kernel-SetsNice

mysetnice-set-get_example :
    mysetnice kernel (mysetnice kernel zeros (pos 1) (pos 1) (pos 50)).1 (pos 1) (pos 0) (pos 0)
    ≡ (pos (40 - normalize (pos 50)), (mysetnice kernel zeros (pos 1) (pos 1) (pos 50)).1)
unfolding mysetnice sys_setpriority tasks_of set_each set_one_prio set_one_prio_perm normalize
mysetnice-set-get_example =
    mysetnice-set-get kernel zeros (pos 1) (pos 50) (pos 0) kernel-SetsNice refl

sys_setpriority-Guarded_example :
    Guarded kernel zeros (sys_setpriority kernel zeros (pos 1) (pos 0) (negsuc 3)).1 2
sys_setpriority-Guarded_example =
    sys_setpriority-Guarded kernel zeros (pos 1) (pos 0) (negsuc 3) 2 kernel-SetsNice
