-- ===== src/Services/AdminGroups/LastAdmin.antt =====
-- The reserved group never loses its last member.
use gotfr_sec.Prelude.{
  ℕ, ◌≤◌, ◌≡◌, refl, true, false, ◌&&◌, Bool-cases, Option, List, [], ◌∷◌, inl, inr, is_some, arith,
  length, contains, ◌==◌, ==_iff, leb,
}
use gotfr_sec.Prelude.Text.{Text, text_eq}
use gotfr_sec.Domain.Errors.{Result, ok, err}
use gotfr_sec.Domain.Rules.{reserved_admin_group, normalize_group_name}
use gotfr_sec.Repositories.View.{View, without_membership, Distinct, Counts}
use gotfr_sec.Repositories.Interfaces.{RepositoryBundle}
use gotfr_sec.Repositories.Lawful.{Reading, IsLawful}
use gotfr_sec.Exec.{Platform, World}
use gotfr_sec.Services.AdminGroups.{remove_membership}
use gotfr_sec.Services.AdminGroups.Remove.{
  removes, removed_view, admin_count, remove_membership-Ends,
}

-- Somebody belongs to the reserved group.
abbrev pub HasAdmin : View → Type 0
HasAdmin v = (sub : Text) × (is_some (v.membership sub reserved_admin_group) ≡ true)

-- Of two distinct keys one differs from a given text.
other_key :
    (x : Text) (keys : List Text)
    → Distinct keys
    → 2 ≤ length keys
    → (y : Text) × (contains y keys ≡ true) × ((x == y) ≡ false)
unfolding contains
other_key x [] distinct two = absurd (omega arith)
other_key x (a ∷ []) distinct two = absurd (omega arith)
other_key x (a ∷ b ∷ keys) distinct two = elim (Bool-cases (x == a)) [
  | inl same ↦ (
    b,
    ground (arith, ==_iff b b),
    ground (arith, distinct.0, same, ==_iff x a, ==_iff x b, ==_iff a b),
  )
  | inr differs ↦ (a, ground (arith, ==_iff a a), differs)
]

other_admin :
    (v : View) (sub : Text) (count : ℕ)
    → Counts (λ s. v.membership s reserved_admin_group) count
    → 2 ≤ count
    → HasAdmin (without_membership sub reserved_admin_group v)
other_admin v sub count c two =
    let (y, held, differs) = other_key sub c.keys c.distinct (omega (arith, c.size)) in
    (y, ground (arith, differs, held, c.exact y))

module _ (v : View) (sub : Text) (count : ℕ)
    (c : Counts (λ s. v.membership s reserved_admin_group) count) where
  removes-safe :
      (o : Result Text) (n : Text)
      → removes o sub v count ≡ ok n
      → (n == reserved_admin_group && leb count 1) ≡ false
  removes-safe (err e) n h = absurd (cc)
  removes-safe (ok name) n h = ground arith

  HasAdmin-removed :
      (o : Result Text)
      → ((n : Text) → o ≡ ok n → (n == reserved_admin_group && leb count 1) ≡ false)
      → HasAdmin v
      → HasAdmin (removed_view sub o v)
  HasAdmin-removed (err e) safe h = h
  HasAdmin-removed (ok n) safe (admin, held) = elim (Bool-cases (n == reserved_admin_group)) [
    | inl same ↦
        rw ((==_iff n reserved_admin_group).0 same)
          (other_admin v sub count c (ground (arith, safe n refl, same)))
    | inr other ↦ (admin, ground (arith, other, held))
  ]

module _ {S : Type 0} (p : Platform) (r : RepositoryBundle S) (reading : Reading S)
    (law : IsLawful reading r) where
  -- Whatever is removed by whom, and whether or not the call succeeds: if somebody belonged to the
  -- reserved group before `remove_membership`, somebody belongs to it after.
  pub remove_membership-HasAdmin :
      (sub group_name actor_sub : Text) (cid : Option Text) (w : World S)
      → reading.IsValid w.store
      → HasAdmin (reading.view w.store)
      → HasAdmin (reading.view (remove_membership p r sub group_name actor_sub cid w).1.store)
  remove_membership-HasAdmin sub group_name actor_sub cid w valid h =
      let v = reading.view w.store in
      let count = admin_count p r reading law w valid in
      let c = (law.membership_count w.store valid reserved_admin_group).counts in
      let o = normalize_group_name p.wide group_name in
      rw ((remove_membership-Ends p r reading law sub group_name w valid actor_sub cid).seen)
        (HasAdmin-removed v sub count c (removes o sub v count) (removes-safe v sub count c o) h)
