-- ===== src/Repositories/Vault/Contract.antt =====
-- What the stores rely on of Vault: a secret is found under the key under which it was written last,
-- and a listing names what stands directly below a key, folders with a slash behind them.
use gotfr_sec.Prelude.{◌≡◌, Option, none, some, List, [], Member, is_some, true}
use gotfr_sec.Prelude.Text.{Text}
use gotfr_sec.Domain.Errors.{ok}
use gotfr_sec.Repositories.View.{update}
use gotfr_sec.Repositories.Json.{Fields}
use gotfr_sec.Repositories.VaultPaths.{under, IsSegment}
use gotfr_sec.Repositories.Vault.Client.{VaultClient}

-- The secrets by their keys.
abbrev pub Secrets : Type 0
Secrets = Text → Option Fields

-- A name in the listing of what stands below `root`.
pub data KeyBelow (secrets : Secrets) (root : Text) : Text → Type 0 where
  leaf :
      (name : Text)
      → IsSegment name
      → is_some (secrets (under root name)) ≡ true
      → KeyBelow secrets root name
  folder :
      (name rest : Text)
      → IsSegment name
      → is_some (secrets (under root (under name rest))) ≡ true
      → KeyBelow secrets root (under name [])

-- A listing of the keys below `root`.
pub record Lists (secrets : Secrets) (root : Text) (keys : List Text) : Type 0 where
  pub sound : (k : Text) → Member k keys → KeyBelow secrets root k
  pub complete : (k : Text) → KeyBelow secrets root k → Member k keys

pub record IsVault {S : Type 0} (c : VaultClient S) : Type 0 where
  pub secrets : S → Secrets
  pub read : (path : Text) (s : S) → c.read_secret path s ≡ (ok (secrets s path), s)
  pub exists : (path : Text) (s : S) → c.secret_exists path s ≡ (ok (is_some (secrets s path)), s)
  pub writes : (path : Text) (fields : Fields) (s : S) → (c.write_secret path fields s).0 ≡ ok tt
  pub written :
      (path : Text) (fields : Fields) (s : S)
      → secrets (c.write_secret path fields s).1 ≡ update (secrets s) path (some fields)
  pub deletes : (path : Text) (s : S) → (c.delete_secret path s).0 ≡ ok (is_some (secrets s path))
  pub deleted :
      (path : Text) (s : S) → secrets (c.delete_secret path s).1 ≡ update (secrets s) path none
  pub lists :
      (root : Text) (s : S)
      → (keys : List Text) × (c.list_secrets root s ≡ (ok keys, s)) × Lists (secrets s) root keys
