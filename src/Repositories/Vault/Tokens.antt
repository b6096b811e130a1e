-- ===== src/Repositories/Vault/Tokens.antt =====
-- app/repositories/vault_tokens.py: `VaultTokenRepository`, its records and its indexes by user and
-- by group.
use gotfr_sec.Prelude.{true, false, Option, none, some, List, [], ◌∷◌, ◌==◌, contains}
use gotfr_sec.Prelude.Text.{Text, text, text_eq, truthy}
use gotfr_sec.Domain.Models.{IssuedTokenRecord}
use gotfr_sec.Repositories.Interfaces.{Call, TokenRepository, RepositoryBundle}
use gotfr_sec.Repositories.Calls.{done, raising, ◌>>=◌, ◌>>◌}
use gotfr_sec.Repositories.Json.{str, Fields, end, field}
use gotfr_sec.Repositories.VaultPaths.{
  token_path, user_token_path, user_tokens_root, group_token_path,
}
use gotfr_sec.Repositories.Vault.Client.{VaultClient, Formats}
use gotfr_sec.Repositories.Vault.Documents.{serialize_token, deserialize_token, status_text}
use gotfr_sec.Repositories.Vault.Users.{rstrip_slash, vault_users}
use gotfr_sec.Repositories.Vault.Groups.{vault_groups, vault_memberships}

abbrev pub appended : Option IssuedTokenRecord → List IssuedTokenRecord → List IssuedTokenRecord
appended none tokens = tokens
appended (some t) tokens = t ∷ tokens

module _ {S : Type 0} (c : VaultClient S) (f : Formats) (path_prefix : Text) where
  abbrev pub read_token : Option Fields → Call S (Option IssuedTokenRecord)
  read_token none s = done none s
  read_token (some fields) s =
      (do token ← raising (deserialize_token f (c.now s) fields); done (some token)) s

  unfoldable pub get_token : Text → Call S (Option IssuedTokenRecord)
  get_token id = do found ← c.read_secret (token_path path_prefix id); read_token found

  abbrev pub user_index : IssuedTokenRecord → Fields
  user_index t = field (text "token_id") (str t.token_id) (
      field (text "owner_sub") (str t.owner_sub)
        (field (text "status") (str (status_text f t.status)) end))

  abbrev pub group_index : IssuedTokenRecord → Text → Fields
  group_index t group = field (text "token_id") (str t.token_id) (
      field (text "group_name") (str group) (
        field (text "owner_sub") (str t.owner_sub)
          (field (text "status") (str (status_text f t.status)) end)))

  -- `if previous and previous.owner_sub != record.owner_sub`.
  unfoldable pub drop_owner : Option IssuedTokenRecord → IssuedTokenRecord → Call S (Unit {0})
  drop_owner none t = done tt
  drop_owner (some old) t = elim (old.owner_sub == t.owner_sub) [
    | true ↦ done tt
    | false ↦ do c.delete_secret (user_token_path path_prefix old.owner_sub old.token_id); done tt
  ]

  -- The loop over `previous_groups - current_groups`, in the order of the old list; a group that
  -- the list repeats is deleted again, which changes nothing.
  unfoldable pub drop_groups : List Text → IssuedTokenRecord → Call S (Unit {0})
  drop_groups [] t = done tt
  drop_groups (group ∷ groups) t = elim (contains group t.granted_groups) [
    | true ↦ drop_groups groups t
    | false ↦ do
      c.delete_secret (group_token_path path_prefix group t.token_id)
      drop_groups groups t
  ]

  -- The loop that writes an index for each granted group.
  unfoldable pub write_groups : List Text → IssuedTokenRecord → Call S (Unit {0})
  write_groups [] t = done tt
  write_groups (group ∷ groups) t = do
    c.write_secret (group_token_path path_prefix group t.token_id) (group_index t group)
    write_groups groups t

  abbrev pub groups_before : Option IssuedTokenRecord → List Text
  groups_before none = []
  groups_before (some old) = old.granted_groups

  unfoldable pub upsert_token : IssuedTokenRecord → Call S IssuedTokenRecord
  upsert_token t = do
    previous ← get_token t.token_id
    c.write_secret (token_path path_prefix t.token_id) (serialize_token f t)
    drop_owner previous t
    drop_groups (groups_before previous) t
    c.write_secret (user_token_path path_prefix t.owner_sub t.token_id) (user_index t)
    write_groups t.granted_groups t
    done t

  -- The loop of `list_for_user`.
  unfoldable pub list_tokens : List Text → Call S (List IssuedTokenRecord)
  list_tokens [] = done []
  list_tokens (key ∷ keys) = elim (truthy (rstrip_slash key)) [
    | true ↦ do
      found ← get_token (rstrip_slash key)
      rest ← list_tokens keys
      done (appended found rest)
    | false ↦ list_tokens keys
  ]

  -- VaultTokenRepository.
  abbrev pub vault_tokens : TokenRepository S
  vault_tokens = record {
    get = get_token;
    upsert = upsert_token;
    list_for_user =
        λ sub. (do keys ← c.list_secrets (user_tokens_root path_prefix sub); list_tokens keys);
  }

  -- The bundle that app/bootstrap.py builds where Vault is configured.
  abbrev pub vault : RepositoryBundle S
  vault = record {
    user_profiles = vault_users c f path_prefix;
    groups = vault_groups c f path_prefix;
    memberships = vault_memberships c f path_prefix;
    tokens = vault_tokens;
  }
