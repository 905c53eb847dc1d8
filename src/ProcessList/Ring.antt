-- ===== src/ProcessList/Ring.antt =====
-- The circular lists of the kernel that exam2/2/second.c walks.
use hdu_os_experiment.Common.{◌≡◌, ◌≢◌, refl, sym, ◌∙◌, ap₂, subst, List, [], ◌∷◌, ◌++◌}
use hdu_os_experiment.ProcessList.{Node, Kernel}

-- The pointers `next` lead from `a` through `xs` to `b`.
abbrev pub PathTo : (Node → Node) → Node → List Node → Node → Type 0
PathTo next a [] b = next a ≡ b
PathTo next a (x ∷ xs) b = (next a ≡ x) × PathTo next x xs b

abbrev pub Missing : Node → List Node → Type 0
Missing h [] = Unit {0}
Missing h (x ∷ xs) = (x ≢ h) × Missing h xs

-- A circular list with the head `h`.
abbrev pub Ring : (Node → Node) → Node → List Node → Type 0
Ring next h xs = PathTo next h xs h × Missing h xs

-- `list_for_each` with this head visits the other elements of its circular list, in their order.
abbrev pub Visits : Kernel → (Node → Node) → Node → Type 0
Visits k next h = (xs : List Node) → Ring next h xs → k.list_for_each h ≡ xs

PathTo-append :
    (next : Node → Node) (a b c : Node) (xs ys : List Node)
    → PathTo next a xs b
    → PathTo next b ys c
    → PathTo next a (xs ++ b ∷ ys) c
PathTo-append next a b c [] ys h h' = (h, h')
PathTo-append next a b c (x ∷ xs) ys h h' = (h.0, PathTo-append next x b c xs ys h.1 h')

PathTo-split :
    (next : Node → Node) (a b c : Node) (xs ys : List Node)
    → PathTo next a (xs ++ b ∷ ys) c
    → PathTo next a xs b × PathTo next b ys c
PathTo-split next a b c [] ys h = h
PathTo-split next a b c (x ∷ xs) ys h =
    let rest = PathTo-split next x b c xs ys h.1 in ((h.0, rest.0), rest.1)

Missing-append : (h : Node) (xs ys : List Node) → Missing h xs → Missing h ys → Missing h (xs ++ ys)
Missing-append h [] ys m m' = m'
Missing-append h (x ∷ xs) ys m m' = (m.0, Missing-append h xs ys m.1 m')

-- A circular list has any of its elements as its head.
pub Ring-turn :
    (next : Node → Node) (h b : Node) (xs ys : List Node)
    → PathTo next h (xs ++ b ∷ ys) h
    → h ≢ b
    → Missing b xs
    → Missing b ys
    → Ring next b (ys ++ h ∷ xs)
Ring-turn next h b xs ys p ne out out' =
    let parts = PathTo-split next h b h xs ys p in
    (PathTo-append next b h b ys xs parts.1 parts.0, Missing-append b ys (h ∷ xs) out' (ne, out))

-- It has no other elements.
pub Ring-same :
    (next : Node → Node) (h a : Node) (xs ys : List Node)
    → PathTo next a xs h
    → PathTo next a ys h
    → Missing h xs
    → Missing h ys
    → xs ≡ ys
Ring-same next h a [] [] p q m m' = refl
Ring-same next h a [] (y ∷ ys) p q m m' = absurd (m'.0 (sym q.0 ∙ p))
Ring-same next h a (x ∷ xs) [] p q m m' = absurd (m.0 (sym p.0 ∙ q))
Ring-same next h a (x ∷ xs) (y ∷ ys) p q m m' =
    let e : y ≡ x = sym q.0 ∙ p.0 in
    ap₂ ◌∷◌ (sym e) (Ring-same next h x xs ys p.1 (subst (λ z. PathTo next z ys h) e q.1) m.1 m'.1)
