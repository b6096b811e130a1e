-- ===== src/Repositories/Vault/Groups.antt =====
-- app/repositories/vault_groups.py: `VaultGroupRepository` and `VaultGroupMembershipRepository`.
use gotfr_sec.Prelude.{
  Bool, true, false, not, Option, none, some, List, [], ◌∷◌, ◌++◌, ◌==◌, length, select, nat_beq,
  if◌then◌else◌,
}
use gotfr_sec.Prelude.Text.{Text, text_eq, truthy}
use gotfr_sec.Domain.Models.{GroupDefinition, UserGroupMembership}
use gotfr_sec.Repositories.Interfaces.{Call, GroupRepository, GroupMembershipRepository}
use gotfr_sec.Repositories.Calls.{done, raising, ◌>>=◌, ◌>>◌}
use gotfr_sec.Repositories.View.{find_in}
use gotfr_sec.Repositories.Json.{Fields}
use gotfr_sec.Repositories.VaultPaths.{groups_root, group_definition_path, user_groups_path}
use gotfr_sec.Repositories.Vault.Client.{VaultClient, Formats}
use gotfr_sec.Repositories.Vault.Documents.{serialize_group, deserialize_group}
use gotfr_sec.Repositories.Vault.Memberships.{memberships_in, memberships_document}
use gotfr_sec.Repositories.Vault.Users.{rstrip_slash, list_known_user_ids}

-- `membership is not None`.
abbrev pub is_found : Option UserGroupMembership → Bool
is_found none = false
is_found (some _) = true

-- The groups found so far, with the next one.
abbrev pub appended : Option GroupDefinition → List GroupDefinition → List GroupDefinition
appended none groups = groups
appended (some group) groups = groups ++ group ∷ []

module _ {S : Type 0} (c : VaultClient S) (f : Formats) (path_prefix : Text) where
  abbrev pub read_group : Option Fields → Call S (Option GroupDefinition)
  read_group none s = done none s
  read_group (some fields) s =
      (do group ← raising (deserialize_group f (c.now s) fields); done (some group)) s

  abbrev pub get_group : Text → Call S (Option GroupDefinition)
  get_group name = do
    found ← c.read_secret (group_definition_path path_prefix name)
    read_group found

  -- The loop of `list_all`, with the groups found so far.
  unfoldable pub list_groups : List GroupDefinition → List Text → Call S (List GroupDefinition)
  list_groups groups [] = done groups
  list_groups groups (key ∷ keys) = elim (truthy (rstrip_slash key)) [
    | true ↦ do group ← get_group (rstrip_slash key); list_groups (appended group groups) keys
    | false ↦ list_groups groups keys
  ]

  -- VaultGroupRepository.
  abbrev pub vault_groups : GroupRepository S
  vault_groups = record {
    get = get_group;
    upsert = λ group. (do
      c.write_secret (group_definition_path path_prefix group.name) (serialize_group f group)
      done group);
    list_all = (do keys ← c.list_secrets (groups_root path_prefix); list_groups [] keys);
    delete = λ name. c.delete_secret (group_definition_path path_prefix name);
  }

  -- `_load_memberships`.
  unfoldable pub load_memberships : Text → Call S (List UserGroupMembership)
  load_memberships sub = do
    found ← c.read_secret (user_groups_path path_prefix sub)
    λ s. (memberships_in f (c.now s) found, s)

  -- `_store_memberships`.
  unfoldable pub store_memberships : Text → List UserGroupMembership → Call S (Unit {0})
  store_memberships sub [] = do c.delete_secret (user_groups_path path_prefix sub); done tt
  store_memberships sub (m ∷ ms) =
      c.write_secret (user_groups_path path_prefix sub) (memberships_document f sub (m ∷ ms))

  unfoldable pub add_to_vault : UserGroupMembership → Call S UserGroupMembership
  add_to_vault m = do
    loaded ← load_memberships m.keycloak_sub
    store_memberships m.keycloak_sub
        (select (λ old. not (old.group_name == m.group_name)) loaded ++ m ∷ [])
    done m

  unfoldable pub remove_from_vault : Text → Text → Call S Bool
  remove_from_vault sub group = do
    loaded ← load_memberships sub
    let updated = select (λ m. not (m.group_name == group)) loaded
    if nat_beq (length updated) (length loaded)
        then done false
        else (do store_memberships sub updated; done true)

  -- The loop of `list_for_group`.
  unfoldable pub list_members : Text → List Text → Call S (List UserGroupMembership)
  list_members group [] = done []
  list_members group (sub ∷ subs) = do
    loaded ← load_memberships sub
    rest ← list_members group subs
    done (select (λ m. m.group_name == group) loaded ++ rest)

  unfoldable pub list_for_group : Text → Call S (List UserGroupMembership)
  list_for_group group = do subs ← list_known_user_ids c f path_prefix; list_members group subs

  -- VaultGroupMembershipRepository.
  abbrev pub vault_memberships : GroupMembershipRepository S
  vault_memberships = record {
    add = add_to_vault;
    remove = remove_from_vault;
    has_membership =
        λ sub group. (do loaded ← load_memberships sub; done (is_found (find_in group loaded)));
    list_for_user = load_memberships;
    list_for_group = list_for_group;
    count_members = λ group. (do members ← list_for_group group; done (length members));
  }
