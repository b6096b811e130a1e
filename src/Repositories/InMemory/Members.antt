-- ===== src/Repositories/InMemory/Members.antt =====
-- Dictionaries of memberships, as the stores in memory keep them: what is listed of them.
use gotfr_sec.Prelude.{
  ◌≡◌, ◌↔◌, refl, sym, subst, ap, fun_ext, Bool, none, some, List, [], ◌∷◌, arith, length, Eq,
  contains, map, ◌==◌, pair_beq, ==_iff, is_some, Member, select, Member-select, Bool-cases, inl,
  inr,
}
use gotfr_sec.Prelude.Text.{Text, text_eq, text_pair_eq}
use gotfr_sec.Domain.Models.{UserGroupMembership}
use gotfr_sec.Repositories.View.{find_in, update₂, Distinct, Counts}
use gotfr_sec.Repositories.Dict.{
  Dict, lookup, insert, erase, values, IsDict, IsKeyed, lookup-key, lookup-insert, lookup-erase,
  insert-IsDict, erase-IsDict, insert-IsKeyed, erase-IsKeyed, Member-values,
}

abbrev pub membership_key : UserGroupMembership → Text × Text
membership_key m = (m.keycloak_sub, m.group_name)

-- One entry for each key, each value under its own.
abbrev pub IsTable : {K V : Type 0} ⦃e : Eq K⦄ → (V → K) → Dict K V → Type 0
IsTable key d = IsDict d × IsKeyed key d

pub insert-IsTable :
    {K V : Type 0} ⦃e : Eq K⦄ (key : V → K) (v : V) (d : Dict K V)
    → IsTable key d
    → IsTable key (insert (key v) v d)
insert-IsTable key v d h = (insert-IsDict (key v) v d h.0, insert-IsKeyed key v d h.1)

pub erase-IsTable :
    {K V : Type 0} ⦃e : Eq K⦄ (key : V → K) (k : K) (d : Dict K V)
    → IsTable key d
    → IsTable key (erase k d)
erase-IsTable key k d h = (erase-IsDict k d h.0, erase-IsKeyed key k d h.1)

pub find_in-select :
    (sub group : Text) (d : Dict (Text × Text) UserGroupMembership)
    → IsKeyed membership_key d
    → find_in group (select (λ m. m.keycloak_sub == sub) (values d)) ≡ lookup (sub, group) d
unfolding find_in values lookup pair_beq
find_in-select sub group [] keyed = refl
find_in-select sub group (((a, b), m) ∷ d) keyed =
    ground (arith, keyed.0, find_in-select sub group d keyed.1)

abbrev subs_in : Text → Dict (Text × Text) UserGroupMembership → List Text
subs_in group d = map (λ m. m.keycloak_sub) (select (λ m. m.group_name == group) (values d))

contains-subs_in :
    (sub group : Text) (d : Dict (Text × Text) UserGroupMembership)
    → IsKeyed membership_key d
    → contains sub (subs_in group d) ≡ is_some (lookup (sub, group) d)
unfolding contains values lookup pair_beq
contains-subs_in sub group [] keyed = refl
contains-subs_in sub group (((a, b), m) ∷ d) keyed =
    ground (arith, keyed.0, contains-subs_in sub group d keyed.1, ==_iff sub a, ==_iff a sub)

subs_in-Distinct :
    (group : Text) (d : Dict (Text × Text) UserGroupMembership)
    → IsDict d
    → IsKeyed membership_key d
    → Distinct (subs_in group d)
unfolding values
subs_in-Distinct group [] once keyed = tt
subs_in-Distinct group (((a, b), m) ∷ d) once keyed = elim (Bool-cases (m.group_name == group)) [
  | inl kept ↦ rw kept (
    ground (
      arith,
      kept,
      once.0,
      keyed.0,
      ==_iff m.group_name group,
      contains-subs_in a group d keyed.1,
    ),
    subs_in-Distinct group d once.1 keyed.1,
  )
  | inr dropped ↦ rw dropped (subs_in-Distinct group d once.1 keyed.1)
]

length-map-select :
    (test : UserGroupMembership → Bool) (ms : List UserGroupMembership)
    → length (map (λ m. m.keycloak_sub) (select test ms)) ≡ length (select test ms)
length-map-select test [] = refl
length-map-select test (m ∷ ms) = ground (arith, length-map-select test ms)

pub Counts-subs :
    (group : Text) (d : Dict (Text × Text) UserGroupMembership)
    → IsTable membership_key d
    → Counts
        (λ sub. lookup (sub, group) d)
        (length (select (λ m. m.group_name == group) (values d)))
Counts-subs group d h = record {
  keys = subs_in group d;
  distinct = subs_in-Distinct group d h.0 h.1;
  size = length-map-select _ (values d);
  exact = λ sub. contains-subs_in sub group d h.1;
}

pub Member-group :
    (group : Text) (d : Dict (Text × Text) UserGroupMembership)
    → IsTable membership_key d
    → (m : UserGroupMembership)
    → Member m (select (λ m. m.group_name == group) (values d))
      ↔ (lookup (m.keycloak_sub, group) d ≡ some m)
Member-group group d h m =
    let chosen = Member-select (λ m. m.group_name == group) m (values d) in
    let held = Member-values membership_key d m h.0 h.1 in
    let same = ==_iff m.group_name group in
    (
      λ there.
          let (among, is) = chosen.0 there in
          subst (λ g. lookup (m.keycloak_sub, g) d ≡ some m) (same.0 is) (held.0 among),
      λ found.
          let key : membership_key m ≡ (m.keycloak_sub, group) =
            lookup-key membership_key d (m.keycloak_sub, group) m h.1 found in
          let is = ap (λ k. k.1) key in
          chosen.1
            (held.1 (subst (λ g. lookup (m.keycloak_sub, g) d ≡ some m) (sym is) found), same.1 is),
    )

pub Member-user :
    (sub : Text) (d : Dict (Text × Text) UserGroupMembership)
    → IsTable membership_key d
    → (m : UserGroupMembership)
    → Member m (select (λ m. m.keycloak_sub == sub) (values d))
      ↔ (lookup (sub, m.group_name) d ≡ some m)
Member-user sub d h m =
    let chosen = Member-select (λ m. m.keycloak_sub == sub) m (values d) in
    let held = Member-values membership_key d m h.0 h.1 in
    let same = ==_iff m.keycloak_sub sub in
    (
      λ there.
          let (among, is) = chosen.0 there in
          subst (λ i. lookup (i, m.group_name) d ≡ some m) (same.0 is) (held.0 among),
      λ found.
          let key : membership_key m ≡ (sub, m.group_name) =
            lookup-key membership_key d (sub, m.group_name) m h.1 found in
          let is = ap (λ k. k.0) key in
          chosen.1
            (held.1 (subst (λ i. lookup (i, m.group_name) d ≡ some m) (sym is) found), same.1 is),
    )

-- Membership entries are written under a pair of keys.
pub insert_pair :
    (m : UserGroupMembership) (d : Dict (Text × Text) UserGroupMembership)
    → (λ sub group. lookup (sub, group) (insert (membership_key m) m d))
      ≡ update₂ (λ sub group. lookup (sub, group) d) m.keycloak_sub m.group_name (some m)
unfolding pair_beq
insert_pair m d = fun_ext λ sub. fun_ext λ group. rw lookup-insert (ground arith)

pub erase_pair :
    (a b : Text) (d : Dict (Text × Text) UserGroupMembership)
    → IsDict d
    → (λ sub group. lookup (sub, group) (erase (a, b) d))
      ≡ update₂ (λ sub group. lookup (sub, group) d) a b none
unfolding pair_beq
erase_pair a b d once =
    fun_ext λ sub. fun_ext λ group. rw (lookup-erase (a, b) (sub, group) d once) (ground arith)
