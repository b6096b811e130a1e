-- ===== src/Repositories/Vault/Users.antt =====
-- app/repositories/vault_users.py: `VaultUserRepository`, and the listing of known users.
use gotfr_sec.Prelude.{ℕ, Option, none, some, List, [], ◌∷◌, contains, nat_beq, if◌then◌else◌}
use gotfr_sec.Prelude.Text.{Text, text_eq, truthy}
use gotfr_sec.Prelude.Text.Order.{sorted_names}
use gotfr_sec.Domain.Models.{UserProfile}
use gotfr_sec.Repositories.Interfaces.{Call, UserProfileRepository}
use gotfr_sec.Repositories.Calls.{done, raising, ◌>>=◌, ◌>>◌}
use gotfr_sec.Repositories.Json.{Fields}
use gotfr_sec.Repositories.VaultPaths.{users_root, user_profile_path}
use gotfr_sec.Repositories.Vault.Client.{VaultClient, Formats}
use gotfr_sec.Repositories.Vault.Documents.{serialize_profile, deserialize_profile}

abbrev pub keep_unless_slash : ℕ → Text → Text
keep_unless_slash c [] = if nat_beq c b'/' then [] else c ∷ []
keep_unless_slash c (d ∷ s) = c ∷ d ∷ s

-- `key.rstrip("/")`.
unfoldable pub rstrip_slash : Text → Text
rstrip_slash [] = []
rstrip_slash (c ∷ s) = keep_unless_slash c (rstrip_slash s)

-- The set comprehension of `list_known_user_ids`: each name once.
unfoldable pub distinct_names : List Text → List Text
distinct_names [] = []
distinct_names (key ∷ keys) =
    let name = rstrip_slash key in
    let rest = distinct_names keys in
    if truthy name then (if contains name rest then rest else name ∷ rest) else rest

module _ {S : Type 0} (c : VaultClient S) (f : Formats) (path_prefix : Text) where
  unfoldable pub list_known_user_ids : Call S (List Text)
  list_known_user_ids = do
    keys ← c.list_secrets (users_root path_prefix)
    done (sorted_names (distinct_names keys))

  abbrev pub read_profile : Option Fields → Call S (Option UserProfile)
  read_profile none s = done none s
  read_profile (some fields) s =
      (do profile ← raising (deserialize_profile f (c.now s) fields); done (some profile)) s

  -- VaultUserRepository.
  abbrev pub vault_users : UserProfileRepository S
  vault_users = record {
    get = λ sub. (do found ← c.read_secret (user_profile_path path_prefix sub); read_profile found);
    upsert = λ profile. (do
      c.write_secret (user_profile_path path_prefix profile.keycloak_sub)
          (serialize_profile f profile)
      done profile);
    is_registered = λ sub. c.secret_exists (user_profile_path path_prefix sub);
  }
