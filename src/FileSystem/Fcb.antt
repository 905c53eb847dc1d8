-- ===== src/FileSystem/Fcb.antt =====
-- The file control block of exam5/File_System/main.cpp: 32 bytes that lie in a directory's block
-- or in the open file table, with the functions that test and initialise one.
pub mod Time
pub mod Init
pub mod Fields
use hdu_os_experiment.Common.{
  ℕ, ◌+◌, ◌-◌, ◌*◌, ◌/◌, ◌%◌, Bool, true, false, ◌&&◌, List, ◌==◌, if◌then◌else◌,
}
use hdu_os_experiment.Memory.{
  Mem, put, get_u16, set_u16, get_u32, set_u32, memset, strcpy, read_str, str_eq,
}

-- `sizeof (fcb)`.
abbrev pub fcb_size : ℕ
fcb_size = 32

-- The bits of the attribute byte.
abbrev pub rootdir : ℕ
rootdir = 4

abbrev pub dir : ℕ
dir = 8

abbrev pub data_file : ℕ
data_file = 16

-- The fields at their offsets: `filename` at 0, `exname` at 8.
unfoldable pub attr : Mem → ℕ → ℕ
attr m p = m (p + 11)

unfoldable pub in_use : Mem → ℕ → ℕ
in_use m p = m (p + 12)

unfoldable pub wday : Mem → ℕ → ℕ
wday m p = m (p + 13)

unfoldable pub c_time : Mem → ℕ → ℕ
c_time m p = get_u16 m (p + 14)

unfoldable pub c_date : Mem → ℕ → ℕ
c_date m p = get_u16 m (p + 16)

unfoldable pub l_date : Mem → ℕ → ℕ
l_date m p = get_u16 m (p + 18)

unfoldable pub s_block : Mem → ℕ → ℕ
s_block m p = get_u16 m (p + 20)

unfoldable pub u_time : Mem → ℕ → ℕ
u_time m p = get_u16 m (p + 22)

unfoldable pub u_date : Mem → ℕ → ℕ
u_date m p = get_u16 m (p + 24)

unfoldable pub len : Mem → ℕ → ℕ
len m p = get_u32 m (p + 28)

unfoldable pub set_attr : Mem → ℕ → ℕ → Mem
set_attr m p v = put m (p + 11) v

unfoldable pub set_s_block : Mem → ℕ → ℕ → Mem
set_s_block m p v = set_u16 m (p + 20) v

unfoldable pub set_len : Mem → ℕ → ℕ → Mem
set_len m p v = set_u32 m (p + 28) v

-- `judgeDir`: `(attr >> 4) & ~2` is 0.
unfoldable pub judge_dir : Mem → ℕ → Bool
unfolding attr
judge_dir m p = let high = attr m p / 16 in if high - 2 * (high / 2 % 2) == 0 then true else false

-- `fileNameMatch`.
unfoldable pub file_name_match : Mem → ℕ → List ℕ → List ℕ → Bool
file_name_match m p fname ename =
    str_eq (read_str m p 8) fname && str_eq (read_str m (p + 8) 3) ename

-- What `localtime` returns: the fields of `struct tm` that are read, years since 1900 and months
-- since January.
pub record Tm : Type 0 where
  pub hour : ℕ
  pub min : ℕ
  pub sec : ℕ
  pub year : ℕ
  pub mon : ℕ
  pub mday : ℕ
  pub wday : ℕ

abbrev pub current_time : Tm → ℕ
current_time t = t.hour * 2048 + t.min * 32 + t.sec / 2

abbrev pub current_date : Tm → ℕ
current_date t = t.year * 512 + (t.mon + 1) * 32 + t.mday

-- `initFcbTime`, given what the clock reads.
unfoldable pub init_fcb_time : Mem → ℕ → Tm → Mem
init_fcb_time m p t =
    let m1 = set_u16 m (p + 14) (current_time t) in
    let m2 = set_u16 m1 (p + 16) (current_date t) in
    let m3 = put m2 (p + 13) t.wday in
    let m4 = set_u16 m3 (p + 18) (current_date t) in
    let m5 = set_u16 m4 (p + 22) (current_time t) in set_u16 m5 (p + 24) (current_date t)

-- `viewFcbTime`.
unfoldable pub view_fcb_time : Mem → ℕ → Tm → Mem
view_fcb_time m p t = set_u16 m (p + 18) (current_date t)

-- `updateFcbTime`.
unfoldable pub update_fcb_time : Mem → ℕ → Tm → Mem
update_fcb_time m p t =
    let m1 = set_u16 m (p + 18) (current_date t) in
    let m2 = set_u16 m1 (p + 22) (current_time t) in set_u16 m2 (p + 24) (current_date t)

-- `initFcb`; a name or extension that does not fit its field runs over what follows it.
unfoldable pub init_fcb : Mem → ℕ → List ℕ → List ℕ → ℕ → Tm → Mem
init_fcb m p fname ename use_flag t =
    let m1 = memset m p 0 fcb_size in
    let m2 = set_len m1 p 0 in
    let m3 = strcpy m2 p fname in
    let m4 = strcpy m3 (p + 8) ename in
    let m5 = set_attr m4 p 0 in let m6 = put m5 (p + 12) use_flag in init_fcb_time m6 p t
