-- ===== src/CharDriver/Examples.antt =====
-- The character device with plain copies, on which its theorems are applied.
use hdu_os_experiment.Common.{
  ℕ, zero, suc, ◌+◌, ◌≤◌, ◌≡◌, refl, arith, some, List, [], ◌∷◌, ◌==◌, if◌then◌else◌, length, take,
}
use hdu_os_experiment.Memory.{Mem}
use hdu_os_experiment.Memory.Laws.{Outside}
use hdu_os_experiment.CharDriver.{
  UserCopy, char_dev_llseek, char_dev_read, char_dev_write, transfer_length,
}
use hdu_os_experiment.CharDriver.Transfer.{Copies, region, char_dev_read-write}
use hdu_os_experiment.CharDriver.Session.{State, write, done, next, InDevice, Kept, Steps-InDevice}

abbrev stored : Mem → ℕ → List ℕ → ℕ → Mem
stored m a [] n = m
stored m a (c ∷ buff) zero = m
stored m a (c ∷ buff) (suc n) =
    let rest = stored m (a + 1) buff n in λ x. if x == a then c else rest x

abbrev plain : UserCopy
plain = record {
  to_user = λ m a n. (0, region m a n);
  from_user = λ m a buff n. (0, stored m a buff n);
}

stored-out : (m : Mem) (a : ℕ) (buff : List ℕ) (n x : ℕ) → Outside x a n → stored m a buff n x ≡ m x
stored-out m a [] n x o = refl
stored-out m a (c ∷ buff) zero x o = refl
stored-out m a (c ∷ buff) (suc n) x o = ground (arith, stored-out m (a + 1) buff n x)

region-ext : (m m' : Mem) (a n : ℕ) → ((x : ℕ) → a ≤ x → m x ≡ m' x) → region m a n ≡ region m' a n
region-ext m m' a zero h = refl
region-ext m m' a (suc n) h =
    rw (h a (omega arith), region-ext m m' (a + 1) n (λ x lo. h x (omega arith))) refl

region-stored :
    (m : Mem) (a : ℕ) (buff : List ℕ) (n : ℕ)
    → n ≤ length buff
    → region (stored m a buff n) a n ≡ take n buff
region-stored m a [] zero h = refl
region-stored m a [] (suc n) h = absurd (omega arith)
region-stored m a (c ∷ buff) zero h = refl
region-stored m a (c ∷ buff) (suc n) h =
    rw
      (
        region-ext (stored m a (c ∷ buff) (suc n)) (stored m (a + 1) buff n) (a + 1) n
            (λ x lo. ground arith),
        region-stored m (a + 1) buff n (omega arith),
      )
      (ground arith)

plain-Copies : Copies plain
plain-Copies = record {
  to_user = λ m a n h. refl;
  from_user = λ m a buff n fits h. region-stored m a buff n fits;
  from_user_out = λ m a buff n x out. stored-out m a buff n x out;
}

abbrev blank : Mem
blank _ = 0

abbrev hi : List ℕ
hi = b'h' ∷ b'i' ∷ []

char_dev_read-write_example :
    (char_dev_llseek 12 10 0 ≡ (some 10, 10))
    × (char_dev_read plain (stored blank 10 hi 2) 10 2 ≡ (some 2, hi, 12))
unfolding char_dev_write transfer_length
char_dev_read-write_example =
    char_dev_read-write plain blank 10 hi 2 (stored blank 10 hi 2) 12 plain-Copies (omega arith)
      refl refl

abbrev start : State
start = record { mem = blank; f_pos = λ _. 0 }

abbrev hi_written : State
hi_written = record {
  mem = (char_dev_write plain blank 0 hi 2).1;
  f_pos = λ k. if k == 3 then (char_dev_write plain blank 0 hi 2).2 else 0;
}

Steps-InDevice_example : InDevice hi_written × Kept start hi_written
Steps-InDevice_example =
    Steps-InDevice plain-Copies (λ file. omega arith) (next (write {s = start} 3 hi) done)
