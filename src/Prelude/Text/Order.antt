-- ===== src/Prelude/Text/Order.antt =====
-- Python's order on texts, and `sorted`.
use mathlib.Core.Path.{◌≡◌, refl}
use mathlib.Core.Logic.{inl, inr}
use mathlib.Core.Bool.{Bool, true, false, ◌||◌}
use mathlib.Core.List.{List, [], ◌∷◌}
use native.Mathlib.Omega.{arith}
use gotfr_sec.Prelude.Tests.{ltb, nat_beq, Bool-cases, if◌then◌else◌}
use gotfr_sec.Prelude.Lists.{All}
use gotfr_sec.Prelude.Equality.{◌==◌, contains}
use gotfr_sec.Prelude.Text.{Text, text_eq}

-- Python's order on texts: by code points.
unfoldable pub text_lt : Text → Text → Bool
text_lt s [] = false
text_lt [] (d ∷ t) = true
text_lt (c ∷ s) (d ∷ t) = let rest = text_lt s t in if nat_beq c d then rest else ltb c d

unfoldable pub insert_name : Text → List Text → List Text
unfolding text_lt
insert_name name [] = name ∷ []
insert_name name (other_name ∷ names) =
    if text_lt other_name name
    then other_name ∷ insert_name name names
    else name ∷ other_name ∷ names

-- `sorted(names)`.
unfoldable pub sorted_names : List Text → List Text
unfolding insert_name
sorted_names [] = []
sorted_names (name ∷ names) = insert_name name (sorted_names names)

text_lt_asymm : (s t : Text) → text_lt s t ≡ true → text_lt t s ≡ false
unfolding text_lt
text_lt_asymm s [] h = absurd (cc)
text_lt_asymm [] (d ∷ t) h = refl
text_lt_asymm (c ∷ s) (d ∷ t) h = ground (arith, text_lt_asymm s t)

text_le_trans : (s t u : Text) → text_lt t s ≡ false → text_lt u t ≡ false → text_lt u s ≡ false
unfolding text_lt
text_le_trans [] t u h k = refl
text_le_trans (c ∷ s) [] u h k = absurd (cc)
text_le_trans (c ∷ s) (d ∷ t) [] h k = absurd (cc)
text_le_trans (c ∷ s) (d ∷ t) (e ∷ u) h k = ground (arith, text_le_trans s t u)

-- No name stands behind a greater one.
abbrev pub IsSorted : List Text → Type 0
IsSorted [] = Unit
IsSorted (n ∷ ns) = All (λ m. text_lt m n ≡ false) ns × IsSorted ns

All-le :
    (s t : Text) (ns : List Text)
    → text_lt t s ≡ false
    → All (λ m. text_lt m t ≡ false) ns
    → All (λ m. text_lt m s ≡ false) ns
All-le s t [] le rest = tt
All-le s t (n ∷ ns) le rest = (text_le_trans s t n le rest.0, All-le s t ns le rest.1)

All-insert :
    (s n : Text) (ns : List Text)
    → text_lt n s ≡ false
    → All (λ m. text_lt m s ≡ false) ns
    → All (λ m. text_lt m s ≡ false) (insert_name n ns)
unfolding insert_name
All-insert s n [] le rest = (le, tt)
All-insert s n (o ∷ ns) le rest = ground (arith, All-insert s n ns le rest.1)

insert_name-IsSorted : (n : Text) (ns : List Text) → IsSorted ns → IsSorted (insert_name n ns)
unfolding insert_name
insert_name-IsSorted n [] sorted = (tt, tt)
insert_name-IsSorted n (o ∷ ns) sorted = elim (Bool-cases (text_lt o n)) [
  | inl less ↦
      rw less
        (All-insert o n ns (text_lt_asymm o n less) sorted.0, insert_name-IsSorted n ns sorted.1)
  | inr not_less ↦ rw not_less ((not_less, All-le n o ns not_less sorted.0), sorted)
]

pub sorted_names-IsSorted : (ns : List Text) → IsSorted (sorted_names ns)
unfolding sorted_names
sorted_names-IsSorted [] = tt
sorted_names-IsSorted (n ∷ ns) = insert_name-IsSorted n (sorted_names ns) (sorted_names-IsSorted ns)

contains-insert_name :
    (g n : Text) (ns : List Text) → contains g (insert_name n ns) ≡ (g == n || contains g ns)
unfolding insert_name contains
contains-insert_name g n [] = refl
contains-insert_name g n (o ∷ ns) = ground (arith, contains-insert_name g n ns)

pub contains-sorted_names :
    (g : Text) (ns : List Text) → contains g (sorted_names ns) ≡ contains g ns
unfolding sorted_names contains
contains-sorted_names g [] = refl
contains-sorted_names g (n ∷ ns) =
    ground (arith, contains-insert_name g n (sorted_names ns), contains-sorted_names g ns)
