-- ===== src/FileSystem/Fcb/Time.antt =====
-- The dates that `initFcbTime` and `updateFcbTime` store in an FCB, and what they leave alone.
use hdu_os_experiment.Common.{ℕ, ◌+◌, ◌%◌, ◌≤◌, ◌<◌, ◌≡◌, arith, ◌⊎◌}
use hdu_os_experiment.Memory.{Mem, put, get_u16, set_u16}
use hdu_os_experiment.FileSystem.Fcb.{
  Tm, c_time, c_date, l_date, u_time, u_date, init_fcb_time, update_fcb_time, current_time,
  current_date,
}

-- The ranges of `struct tm`, a leap second included, up to the year 2027.
pub record IsTm (t : Tm) : Type 0 where
  pub hour : t.hour < 24
  pub min : t.min < 60
  pub sec : t.sec ≤ 60
  pub year : t.year < 128
  pub mon : t.mon < 12
  pub mday : t.mday < 32
  pub wday : t.wday < 7

-- The addresses of an FCB that `initFcbTime` does not write.
abbrev pub NoTimeField : ℕ → ℕ → Type 0
NoTimeField a p = (a < p + 13) ⊎ ((p + 26 ≤ a) ⊎ ((p + 20 ≤ a) × (a < p + 22)))

pub init_fcb_time_out :
    (m : Mem) (p : ℕ) (t : Tm) (a : ℕ) → NoTimeField a p → init_fcb_time m p t a ≡ m a
unfolding init_fcb_time set_u16 put
init_fcb_time_out m p t a h = ground arith

pub update_fcb_time_out :
    (m : Mem) (p : ℕ) (t : Tm) (a : ℕ)
    → (a < p + 18) ⊎ ((p + 26 ≤ a) ⊎ ((p + 20 ≤ a) × (a < p + 22)))
    → update_fcb_time m p t a ≡ m a
unfolding update_fcb_time set_u16 put
update_fcb_time_out m p t a h = ground arith

-- Every date and time of the FCB, as words.
pub record Dated (m : Mem) (p : ℕ) (t : Tm) : Type 0 where
  pub created_time : c_time m p ≡ current_time t % 65536
  pub created_date : c_date m p ≡ current_date t % 65536
  pub viewed_date : l_date m p ≡ current_date t % 65536
  pub updated_time : u_time m p ≡ current_time t % 65536
  pub updated_date : u_date m p ≡ current_date t % 65536

pub init_fcb_time-Dated : (m : Mem) (p : ℕ) (t : Tm) → Dated (init_fcb_time m p t) p t
unfolding init_fcb_time set_u16 get_u16 put c_time c_date l_date u_time u_date
init_fcb_time-Dated m p t = record {
  created_time = ground arith;
  created_date = ground arith;
  viewed_date = ground arith;
  updated_time = ground arith;
  updated_date = ground arith;
}
