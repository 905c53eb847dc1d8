-- ===== src/ProcessList/Listed.antt =====
-- What `sec_init` of exam2/2/second.c prints on well-formed lists.
use hdu_os_experiment.Common.{ℕ, ℤ, ◌≡◌, refl, ap, Option, none, some, List, [], ◌∷◌, ◌++◌}
use hdu_os_experiment.ProcessList.{
  Node, sibling, children, Kernel, Row, row, entry_row, entry_rows, sec_init,
}
use hdu_os_experiment.ProcessList.Ring.{Missing, Ring, Visits, Ring-turn}

-- The list heads by which the tasks are linked to their siblings, and the lines for the tasks.
abbrev pub nodes : List ℕ → List Node
nodes [] = []
nodes (t ∷ ts) = sibling t ∷ nodes ts

abbrev pub rows : Kernel → List ℕ → List (Option Row)
rows k [] = []
rows k (t ∷ ts) = some (row (k.tasks t)) ∷ rows k ts

entry_rows-nodes : (k : Kernel) (ts : List ℕ) → entry_rows k (nodes ts) ≡ rows k ts
unfolding entry_rows entry_row
entry_rows-nodes k [] = refl
entry_rows-nodes k (t ∷ ts) = ap (◌∷◌ (some (row (k.tasks t)))) (entry_rows-nodes k ts)

entry_rows-around :
    (k : Kernel) (q : ℕ) (after before : List ℕ)
    → entry_rows k (nodes after ++ children q ∷ nodes before) ≡ rows k after ++ none ∷ rows k before
unfolding entry_rows entry_row
entry_rows-around k q [] before = ap (◌∷◌ none) (entry_rows-nodes k before)
entry_rows-around k q (t ∷ ts) before =
    ap (◌∷◌ (some (row (k.tasks t)))) (entry_rows-around k q ts before)

-- Of a task `p` that stands between `before` and `after` among the children of `q`, `sec_init` prints
-- its parent, the siblings after it, one line for a list head that is no task, the siblings before
-- it, and then exactly its children, all in the order of the lists.
pub sec_init-rows :
    (k : Kernel) (next : Node → Node) (pid : ℤ) (p q : ℕ) (before after cs : List ℕ)
    → k.pid_task pid ≡ some p
    → Ring next (children q) (nodes before ++ sibling p ∷ nodes after)
    → Missing (sibling p) (nodes before)
    → Missing (sibling p) (nodes after)
    → Ring next (children p) (nodes cs)
    → Visits k next (sibling p)
    → Visits k next (children p)
    → sec_init k pid
      ≡ some (record {
        parent = row (k.tasks (k.tasks p).parent);
        siblings = rows k after ++ none ∷ rows k before;
        children = rows k cs;
      })
unfolding sec_init
sec_init-rows k next pid p q before after cs found ring out out' own visits visits' =
    let turned =
      Ring-turn next (children q) (sibling p) (nodes before) (nodes after) ring.0 (λ e. absurd (cc))
        out out' in
    rw
      (
        sec_init,
        found,
        visits _ turned,
        visits' _ own,
        entry_rows-around k q after before,
        entry_rows-nodes k cs,
      )
      refl
