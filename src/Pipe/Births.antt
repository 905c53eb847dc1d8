-- ===== src/Pipe/Births.antt =====
-- The forks of exam4/3/pipe.c, and the calls of the children, keep what `Inv` says.
use hdu_os_experiment.Common.{
  ℕ, suc, ◌≡◌, refl, true, false, Option, none, some, List, [], ◌∷◌, ◌++◌, if◌then◌else◌,
  Bool-cases, inl, inr, ◌∙◌, sym, ap,
}
use hdu_os_experiment.Pipe.{
  Who, child1, child2, child3, same, message, Child, unborn, closing, printing, writing, exiting,
  exited, Parent, State, set_child, fork, child_step,
}
use hdu_os_experiment.Pipe.Invariant.{
  count, wrote, is_born, forked, reads, held, receipts, Inv, append_assoc, bytes-append, count-snoc,
  spoke, speakers-announced, receipts-announced,
}

same-eq : (j k : Who) → same j k ≡ true → j ≡ k
unfolding same
same-eq child1 child1 h = refl
same-eq child2 child2 h = refl
same-eq child3 child3 h = refl
same-eq child1 child2 h = cc
same-eq child1 child3 h = cc
same-eq child2 child1 h = cc
same-eq child2 child3 h = cc
same-eq child3 child1 h = cc
same-eq child3 child2 h = cc

unborn-eq : (c : Child) → is_born c ≡ false → c ≡ unborn
unborn-eq unborn h = refl
unborn-eq closing h = cc
unborn-eq printing h = cc
unborn-eq writing h = cc
unborn-eq exiting h = cc
unborn-eq exited h = cc

-- What a call leaves, if it goes on.
abbrev pub Holds : Option State → Type 0
Holds none = Unit {0}
Holds (some s) = Inv s

-- Counts and births of the children after one of them has changed.
set_child-kept :
    (f : Child → ℕ) (ks : List Who) (c : Who → Child) (k : Who) (v : Child)
    → ((j : Who) → count j ks ≡ f (c j))
    → f v ≡ f (c k)
    → (j : Who) → count j ks ≡ f (set_child c k v j)
unfolding set_child
set_child-kept f ks c k v counted e j = elim (Bool-cases (same j k)) [
  | inl hit ↦ rw hit (counted j ∙ ap (λ i. f (c i)) (same-eq j k hit) ∙ sym e)
  | inr miss ↦ rw miss (counted j)
]

set_child-more :
    (f : Child → ℕ) (ks : List Who) (c : Who → Child) (k : Who) (v : Child)
    → ((j : Who) → count j ks ≡ f (c j))
    → f v ≡ suc (f (c k))
    → (j : Who) → count j (ks ++ k ∷ []) ≡ f (set_child c k v j)
unfolding set_child
set_child-more f ks c k v counted e j = elim (Bool-cases (same j k)) [
  | inl hit ↦
      count-snoc j k ks ∙ rw hit (ap suc (counted j ∙ ap (λ i. f (c i)) (same-eq j k hit)) ∙ sym e)
  | inr miss ↦ count-snoc j k ks ∙ rw miss (counted j)
]

set_child-born :
    (s : State) (k : Who) (v : Child) (p : Parent)
    → ((j : Who) → is_born (s.children j) ≡ forked s.parent j)
    → is_born v ≡ true
    → ((j : Who) → forked p j ≡ (if same j k then true else forked s.parent j))
    → (j : Who) → is_born (set_child s.children k v j) ≡ forked p j
unfolding set_child
set_child-born s k v p born alive e j = elim (Bool-cases (same j k)) [
  | inl hit ↦ rw (e j, hit) alive
  | inr miss ↦ rw (e j, miss) (born j)
]

pub fork-Inv :
    (s : State) (k : Who) (next : Parent)
    → reads next ≡ reads s.parent
    → held next ≡ held s.parent
    → forked s.parent k ≡ false
    → ((j : Who) → forked next j ≡ (if same j k then true else forked s.parent j))
    → Inv s
    → Inv (fork s k next)
fork-Inv s k next r h f e i =
    let new : s.children k ≡ unborn = unborn-eq (s.children k) (i.born k ∙ f) in
    record {
      got = i.got;
      rest = i.rest;
      written = i.written;
      pipe = i.pipe;
      printed = ap (λ ts. receipts s.printed ++ ts) h ∙ i.printed;
      said = set_child-kept spoke _ s.children k closing i.said (sym (ap spoke new));
      read = i.read ∙ sym r;
      counted = set_child-kept wrote _ s.children k closing i.counted (sym (ap wrote new));
      born = set_child-born s k closing next i.born refl e;
    }

-- A child that was forked and goes on.
stays-forked :
    (s : State) (k : Who) (c : Child)
    → Inv s
    → s.children k ≡ c
    → is_born c ≡ true
    → (j : Who) → forked s.parent j ≡ (if same j k then true else forked s.parent j)
stays-forked s k c i at alive j = elim (Bool-cases (same j k)) [
  | inl hit ↦
      rw hit (ap (forked s.parent) (same-eq j k hit) ∙ sym (i.born k) ∙ ap is_born at ∙ alive)
  | inr miss ↦ rw miss refl
]

-- A step of a child that neither writes nor prints.
move-Inv :
    (s : State) (k : Who) (c v : Child)
    → s.children k ≡ c
    → is_born c ≡ true
    → is_born v ≡ true
    → wrote v ≡ wrote c
    → spoke v ≡ spoke c
    → Inv s
    → Inv (record s { children = set_child s.children k v })
move-Inv s k c v at alive alive' w e i = record {
  got = i.got;
  rest = i.rest;
  written = i.written;
  pipe = i.pipe;
  printed = i.printed;
  said = set_child-kept spoke _ s.children k v i.said (e ∙ sym (ap spoke at));
  read = i.read;
  counted = set_child-kept wrote _ s.children k v i.counted (w ∙ sym (ap wrote at));
  born = set_child-born s k v s.parent i.born alive' (stays-forked s k c i at alive);
}

print-Inv :
    (s : State) (k : Who) → s.children k ≡ printing → Inv s → Holds (child_step printing k s)
unfolding child_step
print-Inv s k at i = record {
  got = i.got;
  rest = i.rest;
  written = i.written;
  pipe = i.pipe;
  printed = ap (λ ts. ts ++ held s.parent) (receipts-announced s.printed k) ∙ i.printed;
  said = λ j.
      ap (count j) (speakers-announced s.printed k)
      ∙ set_child-more spoke _ s.children k writing i.said (sym (ap (λ c. suc (spoke c)) at)) j;
  read = i.read;
  counted = set_child-kept wrote _ s.children k writing i.counted (sym (ap wrote at));
  born = set_child-born s k writing s.parent i.born refl (stays-forked s k printing i at refl);
}

write-Inv : (s : State) (k : Who) → s.children k ≡ writing → Inv s → Holds (child_step writing k s)
unfolding child_step
write-Inv s k at i = record {
  got = i.got;
  rest = i.rest ++ k ∷ [];
  written = ap (λ ks. ks ++ k ∷ []) i.written ∙ append_assoc i.got i.rest (k ∷ []);
  pipe = ap (λ bs. bs ++ message k) i.pipe ∙ sym (bytes-append i.rest (k ∷ []));
  printed = i.printed;
  said = set_child-kept spoke _ s.children k exiting i.said (sym (ap spoke at));
  read = i.read;
  counted =
      set_child-more wrote _ s.children k exiting i.counted (sym (ap (λ c. suc (wrote c)) at));
  born = set_child-born s k exiting s.parent i.born refl (stays-forked s k writing i at refl);
}

pub child_step-Inv :
    (c : Child) (s : State) (k : Who) → s.children k ≡ c → Inv s → Holds (child_step c k s)
unfolding child_step
child_step-Inv unborn s k at i = tt
child_step-Inv closing s k at i = move-Inv s k closing printing at refl refl refl refl i
child_step-Inv printing s k at i = print-Inv s k at i
child_step-Inv writing s k at i = write-Inv s k at i
child_step-Inv exiting s k at i = move-Inv s k exiting exited at refl refl refl refl i
child_step-Inv exited s k at i = tt
