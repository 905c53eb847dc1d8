-- ===== src/FileSystem/Create/Ready.antt =====
-- What `createfile` needs of the current directory, also once its file pointer is 0.
use hdu_os_experiment.Common.{ℕ, ◌/◌, ◌≤◌, ◌<◌, ◌≡◌, ◌∙◌, sym, ap, subst, refl, Bool, List, some}
use hdu_os_experiment.Memory.{Mem}
use hdu_os_experiment.FileSystem.Fcb
use hdu_os_experiment.FileSystem.Fat.{get_block_ptr}
use hdu_os_experiment.FileSystem.Dir.{entry, get_next_fcb, not_found}
use hdu_os_experiment.FileSystem.Dir.Used.{FirstUnused, get_next_fcb-FirstUnused}
use hdu_os_experiment.FileSystem.Dir.Lookup.{first_wanted, Cleared, Counts}
use hdu_os_experiment.FileSystem.Oft.{Fs}
use hdu_os_experiment.FileSystem.Create.{rewound}
use hdu_os_experiment.FileSystem.Create.File.{current, here, in_parent, InDirectory}
use hdu_os_experiment.FileSystem.Create.Outcome.{current-rewound, rewound-InDirectory}

-- The current directory counts its entries, has the name nowhere, and its entry `i` is not in use.
pub record Ready (s : Fs) (fname ename : List ℕ) (isdir : Bool) (i : ℕ) : Type 0 where
  pub dir : InDirectory s
  pub counts : Counts s.vd (get_block_ptr (here s)) (Fcb.len (current s).fcb 0 / 32)
  pub cleared : Cleared s.vd (get_block_ptr (here s)) fname ename isdir 30 2
  pub fresh : first_wanted s.vd (get_block_ptr (here s)) fname ename isdir 30 2 ≡ not_found
  pub low : 2 ≤ i
  pub high : i < 32
  pub unused : Fcb.in_use s.vd (entry (get_block_ptr (here s)) i) ≡ 0

pub rewound-here : (s : Fs) → here (rewound s) ≡ here s
rewound-here s = rw (current-rewound s) refl

pub rewound-in_parent : (s : Fs) → in_parent (rewound s) ≡ in_parent s
rewound-in_parent s = rw (current-rewound s) refl

pub rewound-len : (s : Fs) → Fcb.len (current (rewound s)).fcb 0 ≡ Fcb.len (current s).fcb 0
rewound-len s = rw (current-rewound s) refl

Counts-at :
    (m : Mem) (b b' l l' : ℕ)
    → b' ≡ b
    → l' ≡ l
    → Counts m (get_block_ptr b) (l / 32)
    → Counts m (get_block_ptr b') (l' / 32)
Counts-at m b b' l l' e e' h =
    subst (λ c. Counts m (get_block_ptr c) (l' / 32)) (sym e) (h ∙ ap (λ n. n / 32) (sym e'))

pub rewound-Ready :
    (s : Fs) (fname ename : List ℕ) (isdir : Bool) (i : ℕ)
    → InDirectory s
    → Counts s.vd (get_block_ptr (here s)) (Fcb.len (current s).fcb 0 / 32)
    → Cleared s.vd (get_block_ptr (here s)) fname ename isdir 30 2
    → first_wanted s.vd (get_block_ptr (here s)) fname ename isdir 30 2 ≡ not_found
    → get_next_fcb s.vd (get_block_ptr (here s)) ≡ some i
    → Ready (rewound s) fname ename isdir i
rewound-Ready s fname ename isdir i dir counts cleared fresh slot =
    let first =
      subst (FirstUnused s.vd (get_block_ptr (here s)) 2 30) slot
        (get_next_fcb-FirstUnused s.vd (get_block_ptr (here s))) in
    let block = sym (rewound-here s) in
    record {
      dir = rewound-InDirectory s dir;
      counts =
          Counts-at s.vd (here s) (here (rewound s)) (Fcb.len (current s).fcb 0)
            (Fcb.len (current (rewound s)).fcb 0) (rewound-here s) (rewound-len s) counts;
      cleared = subst (λ b. Cleared s.vd (get_block_ptr b) fname ename isdir 30 2) block cleared;
      fresh =
          subst (λ b. first_wanted s.vd (get_block_ptr b) fname ename isdir 30 2 ≡ not_found) block
            fresh;
      low = first.0;
      high = first.1;
      unused = subst (λ b. Fcb.in_use s.vd (entry (get_block_ptr b) i) ≡ 0) block first.2;
    }
