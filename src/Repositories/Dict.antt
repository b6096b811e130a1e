-- ===== src/Repositories/Dict.antt =====
-- A Python `dict`: entries in the order of their first insertion. A new value for a key that is
-- there keeps its place.
use gotfr_sec.Prelude.{
  ◌≡◌, refl, Option, none, some, List, [], ◌∷◌, arith, Eq, ◌==◌, ==_iff, ap, ◌↔◌, inl, inr,
  Bool-cases, Member, if◌then◌else◌,
}

abbrev pub Dict {ℓ κ} : Type ℓ → Type κ → Type (ℓ ⊔ κ)
Dict K V = List (K × V)

module _ {ℓ κ} {K : Type ℓ} {V : Type κ} ⦃e : Eq K⦄ where
  -- `d.get(k)`.
  unfoldable pub lookup : K → Dict K V → Option V
  lookup k [] = none
  lookup k ((j, v) ∷ d) = if j == k then some v else lookup k d

  -- `d[k] = v`.
  unfoldable pub insert : K → V → Dict K V → Dict K V
  insert k v [] = (k, v) ∷ []
  insert k v ((j, w) ∷ d) = if j == k then (j, v) ∷ d else (j, w) ∷ insert k v d

  -- `d.pop(k, None)`, on the dictionary.
  unfoldable pub erase : K → Dict K V → Dict K V
  erase k [] = []
  erase k ((j, w) ∷ d) = if j == k then d else (j, w) ∷ erase k d

  -- No key has two entries.
  abbrev pub IsDict : Dict K V → Type κ
  IsDict [] = Unit
  IsDict ((j, v) ∷ d) = (lookup j d ≡ none) × IsDict d

  pub lookup-insert :
      (k j : K) (v : V) (d : Dict K V)
      → lookup j (insert k v d) ≡ (if k == j then some v else lookup j d)
  unfolding lookup insert
  lookup-insert k j v [] = refl
  lookup-insert k j v ((i, w) ∷ d) =
      ground (arith, ==_iff k j, ==_iff i k, ==_iff i j, lookup-insert k j v d)

  pub lookup-erase :
      (k j : K) (d : Dict K V)
      → IsDict d
      → lookup j (erase k d) ≡ (if k == j then none else lookup j d)
  unfolding lookup erase
  lookup-erase k j [] h = ground arith
  lookup-erase k j ((i, w) ∷ d) h =
      ground (arith, ==_iff k j, ==_iff i k, ==_iff i j, lookup-erase k j d h.1, h.0)

  pub insert-IsDict : (k : K) (v : V) (d : Dict K V) → IsDict d → IsDict (insert k v d)
  unfolding lookup insert
  insert-IsDict k v [] h = (refl, tt)
  insert-IsDict k v ((j, w) ∷ d) h =
      ground (arith, ==_iff k j, ==_iff j k, insert-IsDict k v d h.1, lookup-insert k j v d)

  pub erase-IsDict : (k : K) (d : Dict K V) → IsDict d → IsDict (erase k d)
  unfolding lookup erase
  erase-IsDict k [] h = tt
  erase-IsDict k ((j, w) ∷ d) h = ground (arith, erase-IsDict k d h.1, lookup-erase k j d h.1)

  -- `list(d.values())`.
  unfoldable pub values : Dict K V → List V
  values [] = []
  values ((_, v) ∷ d) = v ∷ values d

  -- Every value stands under its own key.
  abbrev pub IsKeyed : (V → K) → Dict K V → Type ℓ
  IsKeyed key [] = Unit
  IsKeyed key ((j, v) ∷ d) = (key v ≡ j) × IsKeyed key d

  pub lookup-key :
      (key : V → K) (d : Dict K V) (k : K) (v : V) → IsKeyed key d → lookup k d ≡ some v → key v ≡ k
  unfolding lookup
  lookup-key key [] k v keyed h = absurd (cc)
  lookup-key key ((j, w) ∷ d) k v keyed h =
      ground (arith, ==_iff j k, keyed.0, lookup-key key d k v keyed.1)

  pub insert-IsKeyed :
      (key : V → K) (v : V) (d : Dict K V) → IsKeyed key d → IsKeyed key (insert (key v) v d)
  unfolding insert
  insert-IsKeyed key v [] keyed = (refl, tt)
  insert-IsKeyed key v ((j, w) ∷ d) keyed =
      ground (arith, ==_iff j (key v), insert-IsKeyed key v d keyed.1)

  pub erase-IsKeyed : (key : V → K) (k : K) (d : Dict K V) → IsKeyed key d → IsKeyed key (erase k d)
  unfolding erase
  erase-IsKeyed key k [] keyed = tt
  erase-IsKeyed key k ((j, w) ∷ d) keyed = ground (arith, erase-IsKeyed key k d keyed.1)

module _ {K V : Type 0} ⦃e : Eq K⦄ where
  values→lookup :
      (key : V → K) (d : Dict K V) (v : V)
      → IsDict d
      → IsKeyed key d
      → Member v (values d)
      → lookup (key v) d ≡ some v
  unfolding lookup values
  values→lookup key [] v distinct keyed m = absurd m
  values→lookup key ((j, w) ∷ d) v distinct keyed (inl e) =
      ground (arith, ==_iff j (key v), ap key e)
  values→lookup key ((j, w) ∷ d) v distinct keyed (inr m) =
      ground (arith, ==_iff j (key v), values→lookup key d v distinct.1 keyed.1 m)

  lookup→values : (d : Dict K V) (k : K) (v : V) → lookup k d ≡ some v → Member v (values d)
  unfolding lookup values
  lookup→values [] k v h = absurd (cc)
  lookup→values ((j, w) ∷ d) k v h = elim (Bool-cases (j == k)) [
    | inl same ↦ inl (ground (arith, same))
    | inr differs ↦ inr (lookup→values d k v (ground (arith, differs)))
  ]

  -- The values are what the keys lead to.
  pub Member-values :
      (key : V → K) (d : Dict K V) (v : V)
      → IsDict d
      → IsKeyed key d
      → Member v (values d) ↔ (lookup (key v) d ≡ some v)
  Member-values key d v distinct keyed =
      (values→lookup key d v distinct keyed, lookup→values d (key v) v)
