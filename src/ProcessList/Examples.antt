-- ===== src/ProcessList/Examples.antt =====
-- The listing of exam2/2/second.c on five tasks: 2, 3 and 4 are the children of 1, and 5 that of 3.
use hdu_os_experiment.Common.{
  ℕ, pos, ◌≡◌, refl, true, false, some, none, [], ◌∷◌, ◌==◌, if◌then◌else◌, List,
}
use hdu_os_experiment.ProcessList.{
  Node, sibling, children, Kernel, Task, row, fir_init, print_without_mm, sec_init,
}
use hdu_os_experiment.ProcessList.Ring.{Ring, Visits, Ring-same}
use hdu_os_experiment.ProcessList.Listed.{sec_init-rows}

abbrev next : Node → Node
next (sibling t) =
    if t == 2
    then sibling 3
    else if t == 3
    then sibling 4
    else if t == 4
    then children 1
    else if t == 5
    then children 3
    else sibling t
next (children t) = if t == 1 then sibling 2 else if t == 3 then sibling 5 else children t

abbrev visited : Node → List Node
visited (sibling t) = if t == 3 then sibling 4 ∷ children 1 ∷ sibling 2 ∷ [] else []
visited (children t) = if t == 3 then sibling 5 ∷ [] else []

abbrev task : ℕ → Task
task t = record {
  comm = b't' ∷ [];
  pid = pos t;
  state = pos 0;
  prio = pos 20;
  has_mm = if t == 1 then false else true;
  parent = if t == 5 then 3 else 1;
}

abbrev kernel : Kernel
kernel = record {
  tasks = task;
  pid_task = λ _. some 3;
  for_each_process = 1 ∷ 2 ∷ 3 ∷ 4 ∷ 5 ∷ [];
  list_for_each = visited;
}

around_three : Ring next (sibling 3) (sibling 4 ∷ children 1 ∷ sibling 2 ∷ [])
around_three =
    ((refl, (refl, (refl, refl))), (λ e. absurd (cc), (λ e. absurd (cc), (λ e. absurd (cc), tt))))

kernel-Visits : Visits kernel next (sibling 3)
kernel-Visits xs ring =
    Ring-same next (sibling 3) (sibling 3) _ xs around_three.0 ring.0 around_three.1 ring.1

below_three : Ring next (children 3) (sibling 5 ∷ [])
below_three = ((refl, refl), (λ e. absurd (cc), tt))

kernel-Visits_below : Visits kernel next (children 3)
kernel-Visits_below xs ring =
    Ring-same next (children 3) (children 3) _ xs below_three.0 ring.0 below_three.1 ring.1

sec_init-rows_example :
    sec_init kernel (pos 3)
    ≡ some (record {
      parent = row (task 1);
      siblings = some (row (task 4)) ∷ none ∷ some (row (task 2)) ∷ [];
      children = some (row (task 5)) ∷ [];
    })
sec_init-rows_example =
    sec_init-rows kernel next (pos 3) 3 1 (2 ∷ []) (4 ∷ []) (5 ∷ []) refl
      ((refl, (refl, (refl, refl))), (λ e. absurd (cc), (λ e. absurd (cc), (λ e. absurd (cc), tt))))
      (λ e. absurd (cc), tt) (λ e. absurd (cc), tt) below_three kernel-Visits kernel-Visits_below

-- Task 1 alone has no memory of its own.
fir_init_test : fir_init kernel ≡ row (task 1) ∷ []
unfolding fir_init print_without_mm
fir_init_test = refl
