-- ===== src/FileSystem/Listing/Shown.antt =====
-- What `my_ls` shows: every entry in use, with the dates that the clock gave.
use hdu_os_experiment.Common.{
  ℕ, zero, suc, ◌+◌, ◌*◌, ◌/◌, ◌%◌, ◌≤◌, ◌≡◌, refl, arith, Bool, true, not, ◌&&◌, some, List, [],
  ◌∷◌, ◌==◌, if◌then◌else◌,
}
use hdu_os_experiment.Memory.{Mem}
use hdu_os_experiment.FileSystem.Fcb
use hdu_os_experiment.FileSystem.Fcb.{
  Tm, in_use, init_fcb, init_fcb_time, judge_dir, set_attr, current_date, current_time,
}
use hdu_os_experiment.FileSystem.Fcb.Time.{IsTm, Dated, init_fcb_time-Dated}
use hdu_os_experiment.FileSystem.Fcb.Init.{IsName, init_fcb-filename, init_fcb-len}
use hdu_os_experiment.FileSystem.Fat.{get_block_ptr}
use hdu_os_experiment.FileSystem.Dir.{entry}
use hdu_os_experiment.FileSystem.Dir.Used.{used}
use hdu_os_experiment.FileSystem.Dir.Lookup.{Counts}
use hdu_os_experiment.FileSystem.Oft.{Fs}
use hdu_os_experiment.FileSystem.Create.{rewound}
use hdu_os_experiment.FileSystem.Create.File.{current, here}
use hdu_os_experiment.FileSystem.Listing.{
  Line, shown_date, shown_time, print_file, is_shown, list_entries, my_ls,
}

module _ (m : Mem) (p : ℕ) (isall : Bool) where
  -- The lines of the entries in use among the `left` ones from `i` on.
  abbrev pub lines_from : ℕ → ℕ → List Line
  lines_from zero i = []
  lines_from (suc left) i =
      let rest = lines_from left (i + 1) in
      if not (in_use m (entry p i) == 0) && is_shown m (entry p i) isall
      then print_file m (entry p i) ∷ rest
      else rest

  -- The flags are 0 or 1.
  abbrev pub Flags : ℕ → ℕ → Type 0
  Flags zero i = Unit {0}
  Flags (suc left) i = (in_use m (entry p i) ≤ 1) × Flags left (i + 1)

  none_in_use : (left i : ℕ) → used left m p i ≡ 0 → lines_from left i ≡ []
  none_in_use zero i h = refl
  none_in_use (suc left) i h = ground (arith, none_in_use left (i + 1))

  list_entries-lines_from :
      (left i fcb_num : ℕ)
      → fcb_num + 2 ≡ i + used left m p i
      → Flags left i
      → list_entries left m p isall i fcb_num ≡ lines_from left i
  unfolding list_entries
  list_entries-lines_from zero i fcb_num e f = refl
  list_entries-lines_from (suc left) i fcb_num e f = ground (
    arith,
    f.0,
    none_in_use (suc left) i,
    list_entries-lines_from left (i + 1) fcb_num,
    list_entries-lines_from left (i + 1) (fcb_num + 1),
  )

-- In a directory whose length counts its entries in use, and whose flags are 0 or 1, `my_ls` shows
-- exactly the entries in use from the third on, in their order, less those that are hidden unless all
-- are asked for.
pub my_ls-lines_from :
    (s : Fs) (isall : Bool)
    → judge_dir (current s).fcb 0 ≡ true
    → Counts s.vd (get_block_ptr (here s)) (Fcb.len (current s).fcb 0 / 32)
    → Flags s.vd (get_block_ptr (here s)) isall 30 2
    → my_ls s isall ≡ some (lines_from s.vd (get_block_ptr (here s)) isall 30 2, rewound s)
unfolding my_ls
my_ls-lines_from s isall dir counts flags =
    rw
      (
        dir,
        list_entries-lines_from s.vd (get_block_ptr (here s)) isall 30 2
            (Fcb.len (current s).fcb 0 / 32) (omega (arith, counts)) flags,
      )
      refl

-- The line shows the dates and times of `t`, with the seconds rounded down to an even number.
pub record ShowsDates (l : Line) (t : Tm) : Type 0 where
  pub created : l.c_date ≡ (t.year + 1900, t.mon + 1, t.mday)
  pub created_at : l.c_time ≡ (t.hour, t.min, t.sec / 2 * 2)
  pub updated : l.u_date ≡ (t.year + 1900, t.mon + 1, t.mday)
  pub updated_at : l.u_time ≡ (t.hour, t.min, t.sec / 2 * 2)
  pub viewed : l.l_date ≡ (t.year + 1900, t.mon + 1, t.mday)

date-shown :
    (t : Tm) (d : ℕ)
    → IsTm t
    → d ≡ current_date t % 65536
    → shown_date d ≡ (t.year + 1900, t.mon + 1, t.mday)
date-shown t d h e = ground (arith, h.year, h.mon, h.mday)

time-shown :
    (t : Tm) (w : ℕ)
    → IsTm t
    → w ≡ current_time t % 65536
    → shown_time w ≡ (t.hour, t.min, t.sec / 2 * 2)
time-shown t w h e = ground (arith, h.hour, h.min, h.sec)

print_file-Dated : (m : Mem) (p : ℕ) (t : Tm) → IsTm t → Dated m p t → ShowsDates (print_file m p) t
unfolding print_file
print_file-Dated m p t h d = record {
  created = date-shown t _ h d.created_date;
  created_at = time-shown t _ h d.created_time;
  updated = date-shown t _ h d.updated_date;
  updated_at = time-shown t _ h d.updated_time;
  viewed = date-shown t _ h d.viewed_date;
}

-- `printFile` of an FCB that `initFcb` made for a name that fits shows that name, the size 0, and the
-- date and time that the clock read, up to the year 2027 and rounded down to two seconds.
pub print_file-init_fcb :
    (m : Mem) (p : ℕ) (fname ename : List ℕ) (u : ℕ) (t : Tm)
    → IsName fname ename
    → IsTm t
    → ((print_file (init_fcb m p fname ename u t) p).filename ≡ fname)
      × ((print_file (init_fcb m p fname ename u t) p).length ≡ 0)
      × ShowsDates (print_file (init_fcb m p fname ename u t) p) t
unfolding print_file
print_file-init_fcb m p fname ename u t n h = (
  init_fcb-filename m p fname ename u t n.name_fits n.ext_fits n.name_text n.ext_text,
  init_fcb-len m p fname ename u t n.name_fits n.ext_fits,
  unfold print_file in
      print_file-Dated (init_fcb m p fname ename u t) p t h
        (unfold init_fcb in init_fcb_time-Dated _ p t),
)
