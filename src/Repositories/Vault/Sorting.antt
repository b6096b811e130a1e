-- ===== src/Repositories/Vault/Sorting.antt =====
-- What sorting, filtering and extending a list of memberships does to what is found in it.
use gotfr_sec.Prelude.{
  ◌≡◌, ◌≤◌, refl, sym, ap, ◌∙◌, true, false, Bool, not, none, some, List, [], ◌∷◌, ◌++◌, ◌==◌,
  ==_iff, All, select, length, is_some, nat_beq, Bool-cases, inl, inr, arith, if◌then◌else◌,
}
use gotfr_sec.Prelude.Text.{Text, text_eq}
use gotfr_sec.Prelude.Text.Order.{text_lt}
use gotfr_sec.Domain.Models.{UserGroupMembership}
use gotfr_sec.Repositories.View.{find_in}
use gotfr_sec.Repositories.Vault.Memberships.{insert_membership, sort_memberships}
use gotfr_sec.Repositories.Vault.Represents.{IsOnce}

text_lt_irrefl : (s : Text) → text_lt s s ≡ false
unfolding text_lt
text_lt_irrefl [] = refl
text_lt_irrefl (c ∷ s) = ground (arith, text_lt_irrefl s)

text_lt-differ : (s t : Text) → text_lt s t ≡ true → (s == t) ≡ false
text_lt-differ s t h = elim (Bool-cases (s == t)) [
  | inl same ↦ absurd (ground (arith, h, (==_iff s t).0 same, text_lt_irrefl t))
  | inr differs ↦ differs
]

find_in-insert_membership :
    (g : Text) (m : UserGroupMembership) (ms : List UserGroupMembership)
    → find_in g (insert_membership m ms) ≡ (if m.group_name == g then some m else find_in g ms)
unfolding find_in insert_membership
find_in-insert_membership g m [] = refl
find_in-insert_membership g m (n ∷ ns) = ground (
  arith,
  find_in-insert_membership g m ns,
  text_lt-differ n.group_name m.group_name,
  ==_iff n.group_name g,
  ==_iff m.group_name g,
  ==_iff n.group_name m.group_name,
)

pub find_in-sort_memberships :
    (g : Text) (ms : List UserGroupMembership) → find_in g (sort_memberships ms) ≡ find_in g ms
unfolding find_in sort_memberships
find_in-sort_memberships g [] = refl
find_in-sort_memberships g (m ∷ ms) =
    ground
      (arith, find_in-insert_membership g m (sort_memberships ms), find_in-sort_memberships g ms)

length-select-insert_membership :
    (test : UserGroupMembership → Bool) (m : UserGroupMembership) (ms : List UserGroupMembership)
    → length (select test (insert_membership m ms)) ≡ length (select test (m ∷ ms))
unfolding insert_membership
length-select-insert_membership test m [] = refl
length-select-insert_membership test m (n ∷ ns) =
    ground (arith, length-select-insert_membership test m ns)

length-select-sort_memberships :
    (test : UserGroupMembership → Bool) (ms : List UserGroupMembership)
    → length (select test (sort_memberships ms)) ≡ length (select test ms)
unfolding sort_memberships
length-select-sort_memberships test [] = refl
length-select-sort_memberships test (m ∷ ms) = ground (
  arith,
  length-select-insert_membership test m (sort_memberships ms),
  length-select-sort_memberships test ms,
)

module _ (Good : UserGroupMembership → Type 0) where
  All-insert_membership :
      (m : UserGroupMembership) (ms : List UserGroupMembership)
      → Good m
      → All Good ms
      → All Good (insert_membership m ms)
  unfolding insert_membership
  All-insert_membership m [] hm h = (hm, tt)
  All-insert_membership m (n ∷ ns) hm h = elim (Bool-cases (text_lt n.group_name m.group_name)) [
    | inl less ↦ rw less (h.0, All-insert_membership m ns hm h.1)
    | inr not_less ↦ rw not_less (hm, h)
  ]

  pub All-sort_memberships :
      (ms : List UserGroupMembership) → All Good ms → All Good (sort_memberships ms)
  unfolding sort_memberships
  All-sort_memberships [] h = tt
  All-sort_memberships (m ∷ ms) h =
      All-insert_membership m (sort_memberships ms) h.0 (All-sort_memberships ms h.1)

  pub All-select :
      (test : UserGroupMembership → Bool) (ms : List UserGroupMembership)
      → All Good ms
      → All Good (select test ms)
  All-select test [] h = tt
  All-select test (m ∷ ms) h = elim (Bool-cases (test m)) [
    | inl kept ↦ rw kept (h.0, All-select test ms h.1)
    | inr dropped ↦ rw dropped (All-select test ms h.1)
  ]

pub IsOnce-sort_memberships :
    (ms : List UserGroupMembership) → IsOnce ms → IsOnce (sort_memberships ms)
IsOnce-sort_memberships ms h g =
    length-select-sort_memberships _ ms
    ∙ h g
    ∙ ap (λ o. if is_some o then 1 else 0) (sym (find_in-sort_memberships g ms))

-- The memberships in other groups.
abbrev pub without : Text → List UserGroupMembership → List UserGroupMembership
without group = select (λ m. not (m.group_name == group))

pub find_in-without :
    (g group : Text) (ms : List UserGroupMembership)
    → find_in g (without group ms) ≡ (if group == g then none else find_in g ms)
unfolding find_in
find_in-without g group [] = ground arith
find_in-without g group (m ∷ ms) = ground (
  arith,
  find_in-without g group ms,
  ==_iff m.group_name group,
  ==_iff m.group_name g,
  ==_iff group g,
)

length-select-without :
    (g group : Text) (ms : List UserGroupMembership)
    → length (select (λ m. m.group_name == g) (without group ms))
      ≡ (if group == g then 0 else length (select (λ m. m.group_name == g) ms))
length-select-without g group [] = ground arith
length-select-without g group (m ∷ ms) = ground (
  arith,
  length-select-without g group ms,
  ==_iff m.group_name group,
  ==_iff m.group_name g,
  ==_iff group g,
)

pub IsOnce-without :
    (group : Text) (ms : List UserGroupMembership) → IsOnce ms → IsOnce (without group ms)
IsOnce-without group ms h g =
    ground (arith, length-select-without g group ms, find_in-without g group ms, h g)

pub find_in-append :
    (g : Text) (m : UserGroupMembership) (ms : List UserGroupMembership)
    → find_in g (ms ++ m ∷ []) ≡ (
        if is_some (find_in g ms) then find_in g ms else if m.group_name == g then some m else none)
unfolding find_in
find_in-append g m [] = ground arith
find_in-append g m (n ∷ ns) = ground (arith, find_in-append g m ns)

length-select-append :
    (test : UserGroupMembership → Bool) (m : UserGroupMembership) (ms : List UserGroupMembership)
    → length (select test (ms ++ m ∷ [])) ≡ length (select test (m ∷ ms))
length-select-append test m [] = refl
length-select-append test m (n ∷ ns) = ground (arith, length-select-append test m ns)

pub IsOnce-append :
    (m : UserGroupMembership) (ms : List UserGroupMembership)
    → find_in m.group_name ms ≡ none
    → IsOnce ms
    → IsOnce (ms ++ m ∷ [])
IsOnce-append m ms new h g = ground (
  arith,
  length-select-append (λ m. m.group_name == g) m ms,
  find_in-append g m ms,
  h g,
  new,
  ==_iff m.group_name g,
)

length-without-le :
    (group : Text) (ms : List UserGroupMembership) → length (without group ms) ≤ length ms
length-without-le group [] = omega arith
length-without-le group (m ∷ ms) = ground (arith, length-without-le group ms)

-- The list has shrunk exactly if the group was in it.
pub length-without :
    (group : Text) (ms : List UserGroupMembership)
    → nat_beq (length (without group ms)) (length ms) ≡ not (is_some (find_in group ms))
unfolding find_in
length-without group [] = refl
length-without group (m ∷ ms) = ground (arith, length-without group ms, length-without-le group ms)
