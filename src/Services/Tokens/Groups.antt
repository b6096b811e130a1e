-- ===== src/Services/Tokens/Groups.antt =====
-- `_validate_groups`: the groups that a token is granted.
use gotfr_sec.Prelude.{
  ◌≡◌, refl, subst, ◌∙◌, true, false, ◌||◌, Bool-cases, List, [], ◌∷◌, ◌++◌, inl, inr, arith,
  contains, ==_iff, All, All-append, if◌then◌else◌,
}
use gotfr_sec.Prelude.Text.{Text, text_eq}
use gotfr_sec.Domain.Errors.{Result, ok, err, group_not_found, value_error}
use gotfr_sec.Domain.Rules.{ensure_runtime_groups_allowed}
use gotfr_sec.Repositories.View.{View, Distinct}
use gotfr_sec.Repositories.Interfaces.{RepositoryBundle}
use gotfr_sec.Repositories.Lawful.{Reading, IsLawful}
use gotfr_sec.Exec.{Platform, World}
use gotfr_sec.Services.AdminGroups.{is_unusable}
use gotfr_sec.Services.Tokens.{collect_groups, validate_groups, is_empty}

pub contains-append :
    (x : Text) (xs ys : List Text) → contains x (xs ++ ys) ≡ (contains x xs || contains x ys)
unfolding contains
contains-append x [] ys = refl
contains-append x (y ∷ xs) ys = ground (arith, contains-append x xs ys)

pub Distinct-append :
    (xs : List Text) (x : Text) → Distinct xs → contains x xs ≡ false → Distinct (xs ++ x ∷ [])
unfolding contains
Distinct-append [] x distinct fresh = (refl, tt)
Distinct-append (y ∷ xs) x distinct fresh = (
  ground (arith, contains-append y xs (x ∷ []), ==_iff x y, ==_iff y x, distinct.0),
  Distinct-append xs x distinct.1 (ground (arith, fresh)),
)

-- The loop, reading the groups from a view.
pub collects : View → List Text → List Text → List Text → Result (List Text)
collects v unique seen [] = ok unique
collects v unique seen (name ∷ names) = elim (contains name seen) [
  | true ↦ collects v unique seen names
  | false ↦ elim (is_unusable (v.group name)) [
    | true ↦ err (group_not_found name)
    | false ↦ collects v (unique ++ name ∷ []) (name ∷ seen) names
  ]
]

-- Groups that may be granted for the requested ones: each once, all usable, no other.
pub record IsGrant (v : View) (requested granted : List Text) : Type 0 where
  pub once : Distinct granted
  pub usable : All (λ g. is_unusable (v.group g) ≡ false) granted
  pub same : (g : Text) → contains g granted ≡ contains g requested

-- What the loop is to return: a grant, or the error that names an unusable requested group.
abbrev pub Collected : View → List Text → Result (List Text) → Type 0
Collected v requested (ok granted) = IsGrant v requested granted
Collected v requested (err e) =
    (g : Text) × (e ≡ group_not_found g)
    × (contains g requested ≡ true)
    × (is_unusable (v.group g) ≡ true)

module _ (v : View) (requested : List Text) where
  collects-Collected :
      (unique seen names : List Text)
      → Distinct unique
      → All (λ g. is_unusable (v.group g) ≡ false) unique
      → ((g : Text) → contains g unique ≡ contains g seen)
      → ((g : Text) → (contains g seen || contains g names) ≡ contains g requested)
      → Collected v requested (collects v unique seen names)
  unfolding collects contains
  collects-Collected unique seen [] once usable same covers = record {
    once = once;
    usable = usable;
    same = λ g. ground (arith, same g, covers g);
  }
  collects-Collected unique seen (name ∷ names) once usable same covers =
      elim (Bool-cases (contains name seen)) [
        | inl old ↦
            rw (old, collects)
              (collects-Collected unique seen names once usable same
                (λ g. ground (arith, covers g, old, ==_iff g name)))
        | inr new ↦ elim (Bool-cases (is_unusable (v.group name))) [
          | inl bad ↦
              rw (new, bad, collects)
                (name, refl, ground (arith, covers name, ==_iff name name), bad)
          | inr good ↦
              rw (new, good, collects)
                (collects-Collected (unique ++ name ∷ []) (name ∷ seen) names
                  (Distinct-append unique name once (same name ∙ new))
                  (All-append (λ g. is_unusable (v.group g) ≡ false) unique (name ∷ []) usable
                    (good, tt))
                  (λ g. ground (arith, contains-append g unique (name ∷ []), same g))
                  (λ g. ground (arith, covers g)))
        ]
      ]

-- `_validate_groups`, reading the groups from a view.
abbrev pub validated : View → Result (List Text) → Result (List Text)
validated v (err e) = err e
validated v (ok ns) = if is_empty ns then err value_error else collects v [] [] ns

-- The groups of a successful check are a grant of the requested ones.
pub validated-eq :
    (v : View) (o : Result (List Text)) {granted : List Text}
    → validated v o ≡ ok granted
    → (ns : List Text) × (o ≡ ok ns) × IsGrant v ns granted
unfolding contains
validated-eq v (err e) h = absurd (cc)
validated-eq v (ok ns) {granted} h = elim (Bool-cases (is_empty ns)) [
  | inl empty ↦ absurd (ground (arith, empty))
  | inr some_names ↦
      let found : collects v [] [] ns ≡ ok granted = ground (arith, some_names) in
      (
        ns,
        refl,
        subst (Collected v ns) found
            (collects-Collected v ns [] [] ns tt tt (λ g. refl) (λ g. refl)),
      )
]

module _ {S : Type 0} (p : Platform) (r : RepositoryBundle S) (reading : Reading S)
    (law : IsLawful reading r) where
  collect_groups_lem :
      (unique seen names : List Text) (w : World S)
      → reading.IsValid w.store
      → collect_groups p r unique seen names w
        ≡ (collects (reading.view w.store) unique seen names, w)
  unfolding collect_groups collects
  collect_groups_lem unique seen [] w valid = refl
  collect_groups_lem unique seen (name ∷ names) w valid = elim (Bool-cases (contains name seen)) [
    | inl old ↦ rw (old, collect_groups, collects) (collect_groups_lem unique seen names w valid)
    | inr new ↦ elim (Bool-cases (is_unusable ((reading.view w.store).group name))) [
      | inl bad ↦ rw (new, collect_groups, collects, law.group_get w.store valid name, bad)
      | inr good ↦
          rw (new, collect_groups, collects, law.group_get w.store valid name, good)
            (collect_groups_lem (unique ++ name ∷ []) (name ∷ seen) names w valid)
    ]
  ]

  pub validate_groups_lem :
      (groups : List Text) (w : World S)
      → reading.IsValid w.store
      → validate_groups p r groups w
        ≡ (validated (reading.view w.store) (ensure_runtime_groups_allowed p.wide groups), w)
  unfolding validate_groups
  validate_groups_lem groups w valid = go (ensure_runtime_groups_allowed p.wide groups) refl
    where
      go :
          (o : Result (List Text))
          → ensure_runtime_groups_allowed p.wide groups ≡ o
          → validate_groups p r groups w ≡ (validated (reading.view w.store) o, w)
      go (err e) h = rw h
      go (ok []) h = rw h
      go (ok (n ∷ ns)) h = rw h (collect_groups_lem [] [] (n ∷ ns) w valid)
