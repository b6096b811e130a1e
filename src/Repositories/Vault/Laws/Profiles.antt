-- ===== src/Repositories/Vault/Laws/Profiles.antt =====
-- The calls of `VaultUserRepository` and `VaultGroupRepository`, where the secrets represent a view.
use gotfr_sec.Prelude.{◌≡◌, refl, sym, ◌∙◌, subst, Option, none, some, is_some, arith}
use gotfr_sec.Prelude.Text.{Text}
use gotfr_sec.Domain.Errors.{Result, ok}
use gotfr_sec.Domain.Models.{UserProfile, GroupDefinition}
use gotfr_sec.Repositories.View.{View, with_profile, with_group, without_group}
use gotfr_sec.Repositories.Json.{Fields}
use gotfr_sec.Repositories.VaultPaths.{user_profile_path, group_definition_path}
use gotfr_sec.Repositories.Vault.Client.{VaultClient, Formats, IsIso}
use gotfr_sec.Repositories.Vault.Documents.{serialize_profile, serialize_group}
use gotfr_sec.Repositories.Vault.RoundTrip.{
  deserialize_profile-serialize_profile, deserialize_group-serialize_group,
}
use gotfr_sec.Repositories.Vault.Users.{read_profile, vault_users}
use gotfr_sec.Repositories.Vault.Groups.{read_group, vault_groups}
use gotfr_sec.Repositories.Vault.Contract.{IsVault}
use gotfr_sec.Repositories.Vault.Represents.{written, IsVaultSubject, Represents}
use gotfr_sec.Repositories.Vault.Put.{put_profile, put_group}

is_some-written : {A : Type 0} (f : A → Fields) (o : Option A) → is_some (written f o) ≡ is_some o
is_some-written f none = refl
is_some-written f (some a) = refl

module _ {S : Type 0} (c : VaultClient S) (vault : IsVault c) (f : Formats) (iso : IsIso f)
    (path_prefix : Text) where
  -- A call that returns `a` and leaves secrets that represent `v`.
  pub record Stores {A : Type 0} (outcome : Result A × S) (a : A) (v : View) : Type 0 where
    pub returned : outcome.0 ≡ ok a
    pub represents : Represents f path_prefix (vault.secrets outcome.1) v

  read_profile-serialize_profile :
      (o : Option UserProfile) (s : S)
      → read_profile c f path_prefix (written (serialize_profile f) o) s ≡ (ok o, s)
  read_profile-serialize_profile none s = refl
  read_profile-serialize_profile (some p) s =
      rw (deserialize_profile-serialize_profile f iso (c.now s) p) refl

  read_group-serialize_group :
      (o : Option GroupDefinition) (s : S)
      → read_group c f path_prefix (written (serialize_group f) o) s ≡ (ok o, s)
  read_group-serialize_group none s = refl
  read_group-serialize_group (some g) s =
      rw (deserialize_group-serialize_group f iso (c.now s) g) refl

  module _ (s : S) (v : View) (h : Represents f path_prefix (vault.secrets s) v) where
    pub get-profile :
        (sub : Text) → (vault_users c f path_prefix).get sub s ≡ (ok (v.profile sub), s)
    get-profile sub =
        rw (vault.read (user_profile_path path_prefix sub) s, h.profiles sub)
          (read_profile-serialize_profile (v.profile sub) s)

    pub is_registered-profile :
        (sub : Text)
        → (vault_users c f path_prefix).is_registered sub s ≡ (ok (is_some (v.profile sub)), s)
    is_registered-profile sub =
        rw
          (
            vault.exists (user_profile_path path_prefix sub) s,
            h.profiles sub,
            is_some-written (serialize_profile f) (v.profile sub),
          )
          refl

    pub get-group :
        (name : Text) → (vault_groups c f path_prefix).get name s ≡ (ok (v.group name), s)
    get-group name =
        rw (vault.read (group_definition_path path_prefix name) s, h.groups name)
          (read_group-serialize_group (v.group name) s)

    pub upsert-profile :
        (p : UserProfile)
        → IsVaultSubject p.keycloak_sub
        → Stores ((vault_users c f path_prefix).upsert p s) p (with_profile p v)
    upsert-profile p subject =
        let path = user_profile_path path_prefix p.keycloak_sub in
        let doc = serialize_profile f p in
        record {
          returned = rw (vault.writes path doc s) refl;
          represents = rw (vault.writes path doc s) (
              subst (λ k. Represents f path_prefix k (with_profile p v))
                (sym (vault.written path doc s))
                (put_profile f path_prefix (vault.secrets s) v p subject h));
        }

    pub upsert-group :
        (g : GroupDefinition)
        → Stores ((vault_groups c f path_prefix).upsert g s) g (with_group g v)
    upsert-group g =
        let path = group_definition_path path_prefix g.name in
        let doc = serialize_group f g in
        record {
          returned = rw (vault.writes path doc s) refl;
          represents = rw (vault.writes path doc s) (
              subst (λ k. Represents f path_prefix k (with_group g v))
                (sym (vault.written path doc s))
                (put_group f path_prefix (vault.secrets s) v g.name (some g) (λ k e. ground arith)
                  h));
        }

    pub delete-group :
        (name : Text)
        → Stores
            ((vault_groups c f path_prefix).delete name s)
            (is_some (v.group name))
            (without_group name v)
    delete-group name =
        let path = group_definition_path path_prefix name in
        record {
          returned =
              vault.deletes path s
              ∙ rw (h.groups name, is_some-written (serialize_group f) (v.group name)) refl;
          represents =
              subst (λ k. Represents f path_prefix k (without_group name v))
                (sym (vault.deleted path s))
                (put_group f path_prefix (vault.secrets s) v name none (λ k e. absurd (cc)) h);
        }
