-- ===== src/Repositories/Vault/Put.antt =====
-- What one write or deletion does to secrets that represent a view.
use gotfr_sec.Prelude.{
  ◌≡◌, ◌≢◌, refl, sym, ◌∙◌, subst, true, false, Bool-cases, Option, some, ◌==◌, ==_iff, is_some,
  inl, inr, arith, if◌then◌else◌,
}
use gotfr_sec.Prelude.Text.{Text, text_eq}
use gotfr_sec.Domain.Models.{UserProfile, GroupDefinition, UserGroupMembership}
use gotfr_sec.Repositories.View.{View, update, with_profile}
use gotfr_sec.Repositories.Json.{Fields}
use gotfr_sec.Repositories.VaultPaths.{
  under, under_cancel, users_root, user_profile_path, user_groups_path, group_definition_path,
}
use gotfr_sec.Repositories.VaultPaths.Segments.{==-not, ==-injective}
use gotfr_sec.Repositories.VaultPaths.Apart.{
  user_profile_path-eq, user_groups_path-eq, user_profile_path-same, user_groups_path-same,
  group_definition_path-same, profile_groups_apart, profile_index_apart, groups_index_apart,
  profile_definition_apart, profile_token_apart, groups_definition_apart, groups_token_apart,
  index_definition_apart, definition_token_apart, definition_users_apart,
}
use gotfr_sec.Repositories.Vault.Client.{Formats}
use gotfr_sec.Repositories.Vault.Documents.{serialize_profile, serialize_group}
use gotfr_sec.Repositories.Vault.Contract.{Secrets}
use gotfr_sec.Repositories.Vault.Represents.{
  written, UserKey, profile_key, groups_key, IsVaultSubject, Holds, Represents,
}

pub update-other :
    (secrets : Secrets) (path : Text) (o : Option Fields) (other : Text)
    → path ≢ other
    → update secrets path o other ≡ secrets other
update-other secrets path o other apart = rw (==-not path other apart) refl

pub differs_of_not : (a b : Text) → (a == b) ≡ false → a ≢ b
differs_of_not a b h e = absurd (ground (arith, h, (==_iff a b).1 e))

-- A key of a kind, at which a map of the view was updated.
pub update-written :
    {A : Type 0} (secrets : Secrets) (path : Text → Text) (f : A → Fields) (of : Text → Option A)
    (key : Text) (o : Option A)
    → ((a b : Text) → path a ≡ path b → a ≡ b)
    → ((a : Text) → secrets (path a) ≡ written f (of a))
    → (a : Text) → update secrets (path key) (written f o) (path a) ≡ written f (update of key o a)
update-written secrets path f of key o same h a = elim (Bool-cases (key == a)) [
  | inl e ↦ rw (==-injective path key a (same key a), e) refl
  | inr differs ↦ rw (==-injective path key a (same key a), differs) (h a)
]

module _ (f : Formats) (path_prefix : Text) where
  abbrev Shaped : Secrets → Type 0
  Shaped secrets =
      (rest : Text) → is_some (secrets (under (users_root path_prefix) rest)) ≡ true → UserKey rest

  pub update-Shaped :
      (secrets : Secrets) (path : Text) (o : Option Fields)
      → Shaped secrets
      → ((rest : Text) → path ≡ under (users_root path_prefix) rest → UserKey rest)
      → Shaped (update secrets path o)
  update-Shaped secrets path o h fits rest there =
      elim (Bool-cases (path == under (users_root path_prefix) rest)) [
        | inl same ↦ fits rest ((==_iff _ _).0 same)
        | inr differs ↦ h rest (rw differs at there)
      ]

  pub put_profile :
      (secrets : Secrets) (v : View) (p : UserProfile)
      → IsVaultSubject p.keycloak_sub
      → Represents f path_prefix secrets v
      → Represents f path_prefix
          (update secrets
            (user_profile_path path_prefix p.keycloak_sub)
            (some (serialize_profile f p)))
          (with_profile p v)
  put_profile secrets v p subject h =
      let path = user_profile_path path_prefix p.keycloak_sub in
      let o = some (serialize_profile f p) in
      record {
        profiles =
            update-written secrets (user_profile_path path_prefix) _ v.profile p.keycloak_sub
              (some p) (user_profile_path-same path_prefix) h.profiles;
        groups = λ name.
            update-other secrets path o _ (profile_definition_apart path_prefix _ name)
            ∙ h.groups name;
        memberships = λ sub.
            rw (update-other secrets path o _ (profile_groups_apart path_prefix p.keycloak_sub sub))
              (h.memberships sub);
        tokens = λ id.
            update-other secrets path o _ (profile_token_apart path_prefix _ id) ∙ h.tokens id;
        indexed = λ sub id hid.
            rw
              (update-other secrets path o _ (
                profile_index_apart path_prefix p.keycloak_sub sub id hid.segment
                  (differs_of_not _ _ hid.not_profile)))
              (h.indexed sub id hid);
        users = update-Shaped secrets path o h.users (λ rest e.
            subst UserKey
              (under_cancel (users_root path_prefix) _ _
                (sym (user_profile_path-eq path_prefix p.keycloak_sub) ∙ e))
              (profile_key p.keycloak_sub subject));
        profile_of = λ sub q e. elim (Bool-cases (p.keycloak_sub == sub)) [
          | inl same ↦
              let q_eq : p ≡ q = ground (arith, same, e) in
              let sub_eq = (==_iff p.keycloak_sub sub).0 same in
              subst (λ q. (q.keycloak_sub ≡ sub) × IsVaultSubject sub) q_eq
                (sub_eq, subst IsVaultSubject sub_eq subject)
          | inr differs ↦ h.profile_of sub q (rw differs at e)
        ];
        group_of = h.group_of;
        membership_of = h.membership_of;
        token_of = h.token_of;
      }

  pub put_group :
      (secrets : Secrets) (v : View) (name : Text) (o : Option GroupDefinition)
      → ((g : GroupDefinition) → o ≡ some g → g.name ≡ name)
      → Represents f path_prefix secrets v
      → Represents f path_prefix
          (update secrets (group_definition_path path_prefix name) (written (serialize_group f) o))
          (record v { group = update v.group name o })
  put_group secrets v name o keyed h =
      let path = group_definition_path path_prefix name in
      let new = written (serialize_group f) o in
      record {
        profiles = λ sub.
            update-other secrets path new _
              (λ e. profile_definition_apart path_prefix sub name (sym e))
            ∙ h.profiles sub;
        groups =
            update-written secrets (group_definition_path path_prefix) _ v.group name o
              (group_definition_path-same path_prefix) h.groups;
        memberships = λ sub.
            rw
              (update-other secrets path new _
                (λ e. groups_definition_apart path_prefix sub name (sym e)))
              (h.memberships sub);
        tokens = λ id.
            update-other secrets path new _ (definition_token_apart path_prefix name id)
            ∙ h.tokens id;
        indexed = λ sub id hid.
            rw
              (update-other secrets path new _
                (λ e. index_definition_apart path_prefix sub id name (sym e)))
              (h.indexed sub id hid);
        users =
            update-Shaped secrets path new h.users
              (λ rest e. absurd (definition_users_apart path_prefix name rest e));
        profile_of = h.profile_of;
        group_of = λ n g e. elim (Bool-cases (name == n)) [
          | inl same ↦ keyed g (rw same at e) ∙ (==_iff name n).0 same
          | inr differs ↦ h.group_of n g (rw differs at e)
        ];
        membership_of = h.membership_of;
        token_of = h.token_of;
      }

  -- A user's list of memberships is replaced.
  pub put_memberships :
      (secrets : Secrets) (v : View) (sub : Text) (of : Text → Option UserGroupMembership)
      (found : Option Fields)
      → IsVaultSubject sub
      → Holds f path_prefix found sub of
      → ((group : Text) (m : UserGroupMembership)
          → of group ≡ some m
          → (m.keycloak_sub ≡ sub) × (m.group_name ≡ group))
      → Represents f path_prefix secrets v
      → Represents f path_prefix
          (update secrets (user_groups_path path_prefix sub) found)
          (record v { membership = λ i group. if sub == i then of group else v.membership i group })
  put_memberships secrets v sub of found subject held keyed h =
      let path = user_groups_path path_prefix sub in
      record {
        profiles = λ i.
            update-other secrets path found _ (λ e. profile_groups_apart path_prefix i sub (sym e))
            ∙ h.profiles i;
        groups = λ name.
            update-other secrets path found _ (groups_definition_apart path_prefix sub name)
            ∙ h.groups name;
        memberships = λ i. elim (Bool-cases (sub == i)) [
          | inl same ↦
              rw
                (
                  ==-injective (user_groups_path path_prefix) sub i
                      (user_groups_path-same path_prefix sub i),
                  same,
                )
                (subst (λ i. Holds f path_prefix found i of) ((==_iff sub i).0 same) held)
          | inr differs ↦
              rw
                (
                  ==-injective (user_groups_path path_prefix) sub i
                      (user_groups_path-same path_prefix sub i),
                  differs,
                )
                (h.memberships i)
        ];
        tokens = λ id.
            update-other secrets path found _ (groups_token_apart path_prefix sub id) ∙ h.tokens id;
        indexed = λ i id hid.
            rw
              (update-other secrets path found _ (
                groups_index_apart path_prefix sub i id hid.segment
                  (differs_of_not _ _ hid.not_groups)))
              (h.indexed i id hid);
        users = update-Shaped secrets path found h.users (λ rest e.
            subst UserKey
              (under_cancel (users_root path_prefix) _ _
                (sym (user_groups_path-eq path_prefix sub) ∙ e))
              (groups_key sub subject));
        profile_of = h.profile_of;
        group_of = h.group_of;
        membership_of = λ i group m e. elim (Bool-cases (sub == i)) [
          | inl same ↦
              let (a, b) = keyed group m (rw same at e) in
              let eq = (==_iff sub i).0 same in (a ∙ eq, b, subst IsVaultSubject eq subject)
          | inr differs ↦ h.membership_of i group m (rw differs at e)
        ];
        token_of = h.token_of;
      }
