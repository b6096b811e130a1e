-- ===== src/Settings/Csv.antt =====
-- `_split_csv` of app/settings.py.
use gotfr_sec.Prelude.{
  ◌⊎◌, ap, select, ◌==◌, ◌≡◌, refl, sym, ◌∙◌, true, false, not, ◌&&◌, Bool-cases, inl, inr, Option,
  none, some, List, [], ◌∷◌, ◌++◌, ==_iff, contains, All, ℕ, nat_beq, arith, if◌then◌else◌,
}
use gotfr_sec.Prelude.Text.{Text, text_eq, strip, truthy}
use gotfr_sec.Services.Bootstrap.Subjects.{nonblank}
use gotfr_sec.Services.Bootstrap.{normalize_from, normalize_subjects}

abbrev prepend : ℕ → List Text → List Text
prepend c [] = (c ∷ []) ∷ []
prepend c (s ∷ ss) = (c ∷ s) ∷ ss

-- `value.split(",")`.
unfoldable pub split_commas : Text → List Text
split_commas [] = [] ∷ []
split_commas (c ∷ s) =
    let rest = split_commas s in if nat_beq c b',' then [] ∷ rest else prepend c rest

-- The loop of `_split_csv`, with what it has kept and seen.
unfoldable pub collect_items : List Text → List Text → List Text → List Text
collect_items items seen [] = items
collect_items items seen (item ∷ rest) =
    let normalized = strip item in
    elim (truthy normalized && not (contains normalized seen)) [
      | true ↦ collect_items (items ++ normalized ∷ []) (normalized ∷ seen) rest
      | false ↦ collect_items items seen rest
    ]

unfoldable pub split_csv : Option Text → List Text
split_csv none = []
split_csv (some value) = if truthy value then collect_items [] [] (split_commas value) else []

-- `",".join(names)`.
abbrev pub join_commas : List Text → Text
join_commas [] = []
join_commas (name ∷ []) = name
join_commas (name ∷ next ∷ names) = let rest = join_commas (next ∷ names) in name ++ b',' ∷ rest

abbrev HasNoComma : Text → Type 0
HasNoComma = All (λ c. nat_beq c b',' ≡ false)

split_commas_single : (name : Text) → HasNoComma name → split_commas name ≡ name ∷ []
unfolding split_commas
split_commas_single [] h = refl
split_commas_single (c ∷ s) h = rw (h.0, split_commas_single s h.1) refl

split_commas-append :
    (name rest : Text)
    → HasNoComma name
    → split_commas (name ++ b',' ∷ rest) ≡ name ∷ split_commas rest
unfolding split_commas
split_commas-append [] rest h = refl
split_commas-append (c ∷ s) rest h = rw (h.0, split_commas-append s rest h.1) refl

split_commas-join_commas :
    (piece : Text) (pieces : List Text)
    → All HasNoComma (piece ∷ pieces)
    → split_commas (join_commas (piece ∷ pieces)) ≡ piece ∷ pieces
split_commas-join_commas piece [] h = split_commas_single piece h.0
split_commas-join_commas piece (next ∷ pieces) h =
    rw
      (
        split_commas-append piece (join_commas (next ∷ pieces)) h.0,
        split_commas-join_commas next pieces h.1,
      )
      refl

-- The loop is the one of `_normalize_subjects`.
collect_items-normalize_from :
    (items seen rest : List Text) → collect_items items seen rest ≡ normalize_from items seen rest
unfolding collect_items normalize_from
collect_items-normalize_from items seen [] = refl
collect_items-normalize_from items seen (item ∷ rest) =
    elim (Bool-cases (truthy (strip item) && not (contains (strip item) seen))) [
      | inl fresh ↦
          rw (collect_items, normalize_from, fresh)
            (collect_items-normalize_from (items ++ strip item ∷ []) (strip item ∷ seen) rest)
      | inr skipped ↦
          rw (collect_items, normalize_from, skipped) (collect_items-normalize_from items seen rest)
    ]

-- The trusted subjects of the environment are the pieces between the commas, as
-- `_normalize_subjects` keeps them.
pub split_csv-normalize_subjects :
    (value : Text) → split_csv (some value) ≡ normalize_subjects (split_commas value)
unfolding split_csv normalize_subjects split_commas normalize_from strip
split_csv-normalize_subjects [] = refl
split_csv-normalize_subjects (c ∷ s) = collect_items-normalize_from [] [] (split_commas (c ∷ s))

append_item :
    (items : List Text) (name : Text) (names : List Text)
    → (items ++ name ∷ []) ++ names ≡ items ++ name ∷ names
append_item [] name names = refl
append_item (item ∷ items) name names = rw (append_item items name names) refl

append_nil : (items : List Text) → items ++ [] ≡ items
append_nil [] = refl
append_nil (item ∷ items) = rw (append_nil items) refl

-- The first occurrence of each name, in their order.
abbrev pub first_of_each : List Text → List Text
first_of_each [] = []
first_of_each (name ∷ names) =
    let rest = first_of_each names in name ∷ select (λ other. not (other == name)) rest

abbrev unseen : List Text → List Text → List Text
unseen seen names = select (λ other. not (contains other seen)) names

unseen_again :
    (name : Text) (seen names : List Text)
    → contains name seen ≡ true
    → unseen seen (select (λ other. not (other == name)) names) ≡ unseen seen names
unseen_again name seen [] h = refl
unseen_again name seen (x ∷ xs) h = ground (arith, unseen_again name seen xs h, ==_iff x name)

unseen_more :
    (name : Text) (seen names : List Text)
    → unseen seen (select (λ other. not (other == name)) names) ≡ unseen (name ∷ seen) names
unfolding contains
unseen_more name seen [] = refl
unseen_more name seen (x ∷ xs) = ground (arith, unseen_more name seen xs)

unseen_nil : (names : List Text) → unseen [] names ≡ names
unfolding contains
unseen_nil [] = refl
unseen_nil (x ∷ xs) = ap (λ rest. x ∷ rest) (unseen_nil xs)

collect_items_lem :
    (items seen rest : List Text)
    → collect_items items seen rest ≡ items ++ unseen seen (first_of_each (nonblank rest))
unfolding collect_items
collect_items_lem items seen [] = sym (append_nil items)
collect_items_lem items seen (item ∷ rest) = elim (Bool-cases (truthy (strip item))) [
  | inl given ↦ elim (Bool-cases (contains (strip item) seen)) [
    | inl again ↦
        rw (collect_items, given, again)
          (collect_items_lem items seen rest
            ∙ ap (λ names. items ++ names)
                (sym (unseen_again (strip item) seen (first_of_each (nonblank rest)) again)))
    | inr new ↦
        rw (collect_items, given, new)
          (collect_items_lem (items ++ strip item ∷ []) (strip item ∷ seen) rest
            ∙ append_item items (strip item) _
            ∙ ap (λ names. items ++ strip item ∷ names)
                (sym (unseen_more (strip item) seen (first_of_each (nonblank rest)))))
  ]
  | inr blank ↦ rw (collect_items, blank) (collect_items_lem items seen rest)
]

joined_cases :
    (piece : Text) (pieces : List Text)
    → (truthy (join_commas (piece ∷ pieces)) ≡ true) ⊎ ((piece ≡ []) × (pieces ≡ []))
joined_cases [] [] = inr (refl, refl)
joined_cases [] (next ∷ pieces) = inl refl
joined_cases (c ∷ s) [] = inl refl
joined_cases (c ∷ s) (next ∷ pieces) = inl refl

-- Of pieces without commas that are joined by commas, `_split_csv` keeps each one that is not blank,
-- stripped, in their order, and of equal ones the first.
pub split_csv-join_commas :
    (piece : Text) (pieces : List Text)
    → All HasNoComma (piece ∷ pieces)
    → split_csv (some (join_commas (piece ∷ pieces))) ≡ first_of_each (nonblank (piece ∷ pieces))
unfolding split_csv strip
split_csv-join_commas piece pieces h = elim (joined_cases piece pieces) [
  | inl text ↦
      rw (text, split_commas-join_commas piece pieces h)
        (collect_items_lem [] [] (piece ∷ pieces)
          ∙ unseen_nil (first_of_each (nonblank (piece ∷ pieces))))
  | inr (no_piece, no_pieces) ↦ rw (no_pieces, no_piece) refl
]
