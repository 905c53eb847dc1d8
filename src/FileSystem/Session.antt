-- ===== src/FileSystem/Session.antt =====
-- `initsys` and `my_exit_sys` of exam5/File_System/main.cpp: the disk is read from the host's file and
-- written to it.
pub mod Saved
use hdu_os_experiment.Common.{ℕ, Bool, Option, none, some}
use hdu_os_experiment.Memory.{Mem, memcpy}
use hdu_os_experiment.FileSystem.Oft.{Fs, Oft, set_oft, init_oft, skip}
use hdu_os_experiment.FileSystem.Format.{HostFile, my_format, open_root, save_vd_file}
use hdu_os_experiment.FileSystem.Cd.{close_all, close_rounds}

-- `VD_SIZE`.
abbrev pub vd_size : ℕ
vd_size = 1048576

-- The branch of `initsys` that reads the disk from the host's file, which holds `file`.
unfoldable pub load_disk : HostFile → Mem → Fs → Fs
load_disk f file s =
    let m = f.fread file s.vd in
    record s {
      vd = m;
      oft_list = set_oft s.oft_list 0 (open_root (init_oft (s.oft_list 0) (s.clock 0)) m);
      curr_oft_index = 0;
      clock = skip 1 s.clock;
    }

-- `initsys` on the memory that `malloc` gave at `address`: the host's file, if it has one, and the
-- state. `none` means that the program ends.
unfoldable pub initsys : ℕ → HostFile → Option Mem → Fs → Option (Mem × Fs)
initsys address f none s = my_format address f s
initsys address f (some file) s = some (file, load_disk f file s)

-- `my_exit_sys`: the host's file then, and the state. `none` means that the program ends without
-- saving, or does not end.
unfoldable pub my_exit_sys : HostFile → Fs → Option (Mem × Fs)
my_exit_sys f s = elim (close_all close_rounds s) [
  | none ↦ none
  | some s' ↦ elim (save_vd_file f s'.vd) [ none ↦ none | some file ↦ some (file, s') ]
]
