-- ===== src/Repositories/View.antt =====
-- What a store holds, whatever its representation: four finite maps, seen as functions.
use gotfr_sec.Prelude.{
  ℕ, ◌≡◌, false, Option, none, some, List, [], ◌∷◌, length, contains, is_some, ◌==◌, if◌then◌else◌,
}
use gotfr_sec.Prelude.Text.{Text, text_eq}
use gotfr_sec.Domain.Models.{GroupDefinition, UserProfile, UserGroupMembership, IssuedTokenRecord}

pub record View : Type 0 where
  pub profile : Text → Option UserProfile
  pub group : Text → Option GroupDefinition
  pub membership : Text → Text → Option UserGroupMembership
  pub token : Text → Option IssuedTokenRecord

-- A map after one of its entries was set or removed.
abbrev pub update : {V : Type 0} → (Text → Option V) → Text → Option V → Text → Option V
update f key value j = if key == j then value else f j

abbrev pub update₂ :
    {V : Type 0} → (Text → Text → Option V) → Text → Text → Option V → Text → Text → Option V
update₂ f a b value i j = if a == i then (if b == j then value else f i j) else f i j

abbrev pub with_profile : UserProfile → View → View
with_profile p v = record v { profile = update v.profile p.keycloak_sub (some p) }

abbrev pub with_group : GroupDefinition → View → View
with_group g v = record v { group = update v.group g.name (some g) }

abbrev pub without_group : Text → View → View
without_group name v = record v { group = update v.group name none }

abbrev pub with_membership : UserGroupMembership → View → View
with_membership m v = record v {
  membership = update₂ v.membership m.keycloak_sub m.group_name (some m);
}

abbrev pub without_membership : Text → Text → View → View
without_membership sub group v = record v { membership = update₂ v.membership sub group none }

abbrev pub with_token : IssuedTokenRecord → View → View
with_token t v = record v { token = update v.token t.token_id (some t) }

-- The first listed membership in a group: the loop of `AdminGroupService._find_membership`.
unfoldable pub find_in : Text → List UserGroupMembership → Option UserGroupMembership
find_in group [] = none
find_in group (m ∷ ms) = if m.group_name == group then some m else find_in group ms

abbrev pub Distinct : List Text → Type 0
Distinct [] = Unit
Distinct (x ∷ xs) = (contains x xs ≡ false) × Distinct xs

-- `n` is the number of keys at which a map has an entry.
pub record Counts {V : Type 0} (f : Text → Option V) (n : ℕ) : Type 0 where
  pub keys : List Text
  pub distinct : Distinct keys
  pub size : length keys ≡ n
  pub exact : (key : Text) → contains key keys ≡ is_some (f key)
