-- ===== src/Services/Bootstrap/Growth.antt =====
-- How the view of the stores may grow while the bootstrap plan is applied.
use gotfr_sec.Prelude.{
  ◌≡◌, refl, ap, ◌∙◌, true, false, Option, none, some, arith, ◌==◌, ==_iff, is_some,
}
use gotfr_sec.Prelude.Text.{Text, text_eq}
use gotfr_sec.Domain.Models.{Time, GroupDefinition, UserGroupMembership}
use gotfr_sec.Domain.Rules.{reserved_admin_group}
use gotfr_sec.Repositories.View.{View, with_group, with_membership}

abbrev pub admin_membership : Text → Time → UserGroupMembership
admin_membership sub now = record {
  keycloak_sub = sub;
  group_name = reserved_admin_group;
  granted_at = now;
  granted_by_sub = none;
}

-- A view grows to another: every entry stays as it is, except that the other may have more
-- memberships in the reserved group and the definition of that group.
pub record Grows (v u : View) : Type 0 where
  pub profiles : u.profile ≡ v.profile
  pub tokens : u.token ≡ v.token
  pub groups : (n : Text) (g : GroupDefinition) → v.group n ≡ some g → u.group n ≡ some g
  pub memberships :
      (s n : Text) (m : UserGroupMembership) → v.membership s n ≡ some m → u.membership s n ≡ some m
  pub others :
      (s n : Text) → (n == reserved_admin_group) ≡ false → u.membership s n ≡ v.membership s n

pub Grows-refl : (v : View) → Grows v v
Grows-refl v = record {
  profiles = refl;
  tokens = refl;
  groups = λ n g h. h;
  memberships = λ s n m h. h;
  others = λ s n h. refl;
}

pub Grows-trans : {u v w : View} → Grows u v → Grows v w → Grows u w
Grows-trans g h = record {
  profiles = h.profiles ∙ g.profiles;
  tokens = h.tokens ∙ g.tokens;
  groups = λ n d e. h.groups n d (g.groups n d e);
  memberships = λ s n m e. h.memberships s n m (g.memberships s n m e);
  others = λ s n e. h.others s n e ∙ g.others s n e;
}

pub Grows-group :
    (v : View) (g : GroupDefinition) → v.group g.name ≡ none → Grows v (with_group g v)
Grows-group v g missing = record {
  profiles = refl;
  tokens = refl;
  groups = λ n d e. ground (arith, ==_iff g.name n, missing, e);
  memberships = λ s n m h. h;
  others = λ s n h. refl;
}

pub Grows-admin :
    (v : View) (sub : Text) (now : Time)
    → v.membership sub reserved_admin_group ≡ none
    → Grows v (with_membership (admin_membership sub now) v)
Grows-admin v sub now missing = record {
  profiles = refl;
  tokens = refl;
  groups = λ n d h. h;
  memberships = λ s n m e. ground (arith, ==_iff sub s, ==_iff reserved_admin_group n, missing, e);
  others = λ s n h. ground (arith, ==_iff reserved_admin_group n, ==_iff n reserved_admin_group);
}

-- A subject belongs to the reserved group.
abbrev pub IsAdmin : View → Text → Type 0
IsAdmin v sub = is_some (v.membership sub reserved_admin_group) ≡ true

pub is_some_mono :
    {V : Type 0} (a b : Option V)
    → ((x : V) → a ≡ some x → b ≡ some x)
    → is_some a ≡ true
    → is_some b ≡ true
is_some_mono none b keep h = absurd (cc)
is_some_mono (some x) b keep h = ap is_some (keep x refl)
