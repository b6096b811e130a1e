-- ===== src/Repositories/Vault/Represents.antt =====
-- How the secrets of Vault represent the four maps of the stores.
use gotfr_sec.Prelude.{
  ◌≡◌, true, false, Bool, Option, none, some, List, [], ◌∷◌, ◌==◌, All, select, length, is_some,
  if◌then◌else◌,
}
use gotfr_sec.Prelude.Text.{Text, text, text_eq, truthy}
use gotfr_sec.Domain.Errors.{Result, ok, err}
use gotfr_sec.Domain.Models.{UserProfile, GroupDefinition, UserGroupMembership, IssuedTokenRecord}
use gotfr_sec.Repositories.View.{View, find_in}
use gotfr_sec.Repositories.Lawful.{IsNamed}
use gotfr_sec.Repositories.Json.{Fields}
use gotfr_sec.Repositories.VaultPaths.{
  under, IsSegment, users_root, user_profile_path, user_groups_path, user_token_path,
  group_definition_path, token_path,
}
use gotfr_sec.Repositories.Vault.Client.{Formats}
use gotfr_sec.Repositories.Vault.Documents.{
  serialize_profile, deserialize_profile, serialize_group, deserialize_group, serialize_token,
  deserialize_token,
}
use gotfr_sec.Repositories.Vault.Memberships.{memberships_in, memberships_document}
use gotfr_sec.Repositories.Vault.Contract.{Secrets}

-- A subject is one segment of a key.
abbrev pub IsVaultSubject : Text → Type 0
IsVaultSubject sub = IsSegment sub × (truthy sub ≡ true)

-- A token's id is one segment that names none of the documents beside the indexes.
pub record IsVaultTokenId (id : Text) : Type 0 where
  pub segment : IsSegment id
  pub given : truthy id ≡ true
  pub not_profile : (id == text "profile") ≡ false
  pub not_groups : (id == text "groups") ≡ false
  pub not_definition : (id == text "definition") ≡ false

abbrev pub written : {A : Type 0} → (A → Fields) → Option A → Option Fields
written f none = none
written f (some a) = some (f a)

-- What may stand below the folder of the users.
pub data UserKey : Text → Type 0 where
  profile_key : (sub : Text) → IsVaultSubject sub → UserKey (under sub (text "profile"))
  groups_key : (sub : Text) → IsVaultSubject sub → UserKey (under sub (text "groups"))
  token_key :
      (sub id : Text)
      → IsVaultSubject sub
      → IsVaultTokenId id
      → UserKey (under sub (under (text "tokens") id))

-- Whether a token belongs to a user.
abbrev pub owns : Text → Option IssuedTokenRecord → Bool
owns sub none = false
owns sub (some t) = t.owner_sub == sub

-- Every group stands in a list of memberships at most once.
abbrev pub IsOnce : List UserGroupMembership → Type 0
IsOnce ms =
    (group : Text)
    → length (select (λ m. m.group_name == group) ms)
      ≡ (if is_some (find_in group ms) then 1 else 0)

-- What the documents say: a time that they lack is read as the first instant.
abbrev pub decoded : {A : Type 0} → (Fields → Result A) → Option Fields → Option A
decoded read none = none
decoded read (some fields) = elim (read fields) [ ok a ↦ some a | err e ↦ none ]

abbrev pub decoded_list : Result (List UserGroupMembership) → List UserGroupMembership
decoded_list (ok ms) = ms
decoded_list (err e) = []

module _ (f : Formats) (path_prefix : Text) where
  abbrev pub stored_memberships : Text → List UserGroupMembership → Option Fields
  stored_memberships sub [] = none
  stored_memberships sub (m ∷ ms) = some (memberships_document f sub (m ∷ ms))

  -- The document of a user's memberships, and the list that it was written from.
  pub record Holds (found : Option Fields) (sub : Text) (of : Text → Option UserGroupMembership)
      : Type 0 where
    pub listed : List UserGroupMembership
    pub document : found ≡ stored_memberships sub listed
    pub finds : (group : Text) → find_in group listed ≡ of group
    pub once : IsOnce listed
    pub own : All (λ m. m.keycloak_sub ≡ sub) listed

  -- Secrets that represent a view, with the users' indexes of tokens given by `index`.
  pub record RepresentsAs (index : Text → Text → Bool) (secrets : Secrets) (v : View) : Type 0 where
    pub profiles :
        (sub : Text)
        → secrets (user_profile_path path_prefix sub)
          ≡ written (serialize_profile f) (v.profile sub)
    pub groups :
        (name : Text)
        → secrets (group_definition_path path_prefix name)
          ≡ written (serialize_group f) (v.group name)
    pub memberships :
        (sub : Text) → Holds (secrets (user_groups_path path_prefix sub)) sub (v.membership sub)
    pub tokens :
        (id : Text) → secrets (token_path path_prefix id) ≡ written (serialize_token f) (v.token id)
    pub indexed :
        (sub id : Text)
        → IsVaultTokenId id
        → is_some (secrets (user_token_path path_prefix sub id)) ≡ index sub id
    pub users :
        (rest : Text)
        → is_some (secrets (under (users_root path_prefix) rest)) ≡ true
        → UserKey rest
    pub profile_of :
        (sub : Text) (p : UserProfile)
        → v.profile sub ≡ some p
        → (p.keycloak_sub ≡ sub) × IsVaultSubject sub
    pub group_of : (name : Text) (g : GroupDefinition) → v.group name ≡ some g → g.name ≡ name
    pub membership_of :
        (sub group : Text) (m : UserGroupMembership)
        → v.membership sub group ≡ some m
        → (m.keycloak_sub ≡ sub) × (m.group_name ≡ group) × IsVaultSubject sub
    pub token_of :
        (id : Text) (t : IssuedTokenRecord)
        → v.token id ≡ some t
        → (t.token_id ≡ id) × IsVaultTokenId id × IsVaultSubject t.owner_sub × IsNamed t.status

  -- The indexes list for each user the user's own tokens.
  abbrev pub Represents : Secrets → View → Type 0
  Represents secrets v = RepresentsAs (λ sub id. owns sub (v.token id)) secrets v

  abbrev pub vault_view : Secrets → View
  vault_view secrets = record {
    profile =
        λ sub. decoded (deserialize_profile f 0) (secrets (user_profile_path path_prefix sub));
    group =
        λ name. decoded (deserialize_group f 0) (secrets (group_definition_path path_prefix name));
    membership = λ sub group.
        find_in group
          (decoded_list (memberships_in f 0 (secrets (user_groups_path path_prefix sub))));
    token = λ id. decoded (deserialize_token f 0) (secrets (token_path path_prefix id));
  }
