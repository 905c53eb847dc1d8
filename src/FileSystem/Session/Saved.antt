-- ===== src/FileSystem/Session/Saved.antt =====
-- The end of a session and the start of the next one.
use hdu_os_experiment.Common.{ℕ, ◌+◌, ◌<◌, ◌≡◌, refl, true, some}
use hdu_os_experiment.Memory.{Mem}
use hdu_os_experiment.FileSystem.Oft.{Fs}
use hdu_os_experiment.FileSystem.Format.{HostFile}
use hdu_os_experiment.FileSystem.Open.Stack.{IsStack}
use hdu_os_experiment.FileSystem.Cd.{close_all}
use hdu_os_experiment.FileSystem.Cd.Leave.{close_all-root}
use hdu_os_experiment.FileSystem.Session.{vd_size, my_exit_sys}

-- With the slots a stack and a host's file that can be opened, `my_exit_sys` ends: all files but the
-- root directory are closed, and the file holds what `fwrite` of the disk as the closes have left it gives.
pub my_exit_sys-saves :
    (f : HostFile) (s : Fs)
    → f.opens ≡ true
    → IsStack s.oft_list s.curr_oft_index
    → (s' : Fs) × (close_all 10 s ≡ some s')
      × (my_exit_sys f s ≡ some (f.fwrite s'.vd, s'))
      × (s'.curr_oft_index ≡ 0)
      × IsStack s'.oft_list 0
unfolding my_exit_sys
my_exit_sys-saves f s opens st =
    let closed = close_all-root 10 s.curr_oft_index s refl st st.depth in
    (closed.0, closed.1, rw (my_exit_sys, closed.1, opens) refl, closed.2, closed.3)

-- What `fwrite` of a disk puts into the host's file `fread` gives back, as POSIX says of text files.
abbrev pub KeepsBytes : HostFile → Type 0
KeepsBytes f = (m m0 : Mem) (a : ℕ) → a < vd_size → f.fread (f.fwrite m) m0 a ≡ m a

-- A disk that is loaded, with its root directory alone open.
pub record Restored (file : Mem) (s : Fs) : Type 0 where
  pub disk : (a : ℕ) → a < vd_size → s.vd a ≡ file a
  pub root_fcb : (x : ℕ) → x < 32 → (s.oft_list 0).fcb x ≡ file (5120 + x)
  pub at_root : s.curr_oft_index ≡ 0
  pub stack : IsStack s.oft_list 0
