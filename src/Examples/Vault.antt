-- ===== src/Examples/Vault.antt =====
-- The stores over a Vault in memory.
use gotfr_sec.Prelude.{◌≡◌, refl, contains, list_beq, none, some, [], ◌∷◌, true}
use gotfr_sec.Prelude.Text.{text}
use gotfr_sec.Domain.Errors.{ok}
use gotfr_sec.Domain.Models.{IssuedTokenRecord, UserGroupMembership, revoked}
use gotfr_sec.Prelude.Text.Order.{sorted_names, insert_name, text_lt}
use gotfr_sec.Repositories.Dict.{lookup, insert}
use gotfr_sec.Repositories.View.{find_in}
use gotfr_sec.Repositories.Json.{entry, get, item}
use gotfr_sec.Repositories.VaultPaths.{user_groups_path}
use gotfr_sec.Repositories.Vault.Users.{distinct_names, rstrip_slash, list_known_user_ids}
use gotfr_sec.Repositories.Vault.Memberships.{
  sort_memberships, insert_membership, memberships_document, membership_items, read_memberships,
}
use gotfr_sec.Repositories.Vault.Groups.{
  add_to_vault, load_memberships, store_memberships, list_for_group, list_members,
  vault_memberships,
}
use gotfr_sec.Repositories.Lawful.{IsLawful}
use gotfr_sec.Repositories.Vault.Documents.{
  serialize_token, deserialize_token, serialize_membership, deserialize_membership, parse_datetime,
}
use gotfr_sec.Repositories.Vault.RoundTrip.{deserialize_token-serialize_token}
use gotfr_sec.Repositories.Vault.Tokens.{vault}
use gotfr_sec.Repositories.Vault.Lawful.{vault_reading, vault-IsLawful}
use gotfr_sec.Examples.Sample.{alice}
use gotfr_sec.Examples.MemoryVault.{
  MemoryVault, memory_client, memory_client-IsVault, plain_formats, plain_formats-IsIso,
}

abbrev revoked_token : IssuedTokenRecord
revoked_token = record {
  token_id = text "t1";
  owner_sub = alice;
  granted_groups = text "readers" ∷ text "writers" ∷ [];
  status = revoked;
  issued_at = 10;
  expires_at = some 20;
  issued_by_sub = none;
  jwt_hash = some (text "00ff");
  pending_reveal = true;
  revoked_at = some 15;
}

deserialize_token-serialize_token_example :
    deserialize_token plain_formats 99 (serialize_token plain_formats revoked_token)
    ≡ ok revoked_token
deserialize_token-serialize_token_example =
    deserialize_token-serialize_token plain_formats plain_formats-IsIso 99 revoked_token tt

vault-IsLawful_example :
    IsLawful
      (vault_reading memory_client memory_client-IsVault plain_formats plain_formats-IsIso
        (text "gofr/sec"))
      (vault memory_client plain_formats (text "gofr/sec"))
vault-IsLawful_example =
    vault-IsLawful memory_client memory_client-IsVault plain_formats plain_formats-IsIso
      (text "gofr/sec")

-- An administrator whose subject has a slash belongs to the group and is not counted.
abbrev slashed : UserGroupMembership
slashed = record {
  keycloak_sub = text "a/b";
  group_name = text "admin";
  granted_at = 1;
  granted_by_sub = none;
}

abbrev with_slashed : MemoryVault
with_slashed = (add_to_vault memory_client plain_formats (text "p") slashed []).1

slashed_not_counted :
    (((vault_memberships memory_client plain_formats (text "p")).has_membership
        (text "a/b")
        (text "admin")
        with_slashed).0
      ≡ ok true)
    × (((vault_memberships memory_client plain_formats (text "p")).count_members
          (text "admin")
          with_slashed).0
        ≡ ok 0)
unfolding add_to_vault load_memberships store_memberships list_for_group list_members
    list_known_user_ids distinct_names rstrip_slash user_groups_path sort_memberships
    insert_membership memberships_document membership_items read_memberships serialize_membership
    deserialize_membership parse_datetime find_in lookup insert sorted_names insert_name text_lt
    contains list_beq entry get item
slashed_not_counted = (refl, refl)
