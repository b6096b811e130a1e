-- ===== src/Repositories/Vault/Client.antt =====
-- `VaultClient` of gofr_common, and what the stores use of the platform beside it: the clock and
-- the texts of times.
use gotfr_sec.Prelude.{◌≡◌, true, Bool, Option, List}
use gotfr_sec.Prelude.Text.{Text, truthy}
use gotfr_sec.Domain.Errors.{Result, ok}
use gotfr_sec.Domain.Models.{Time}
use gotfr_sec.Repositories.Interfaces.{Call}
use gotfr_sec.Repositories.Json.{Json, Fields}

-- The methods that the stores call; `delete_secret` is called with `hard=True` throughout.
pub record VaultClient (S : Type 0) : Type 0 where
  pub read_secret : Text → Call S (Option Fields)
  pub write_secret : Text → Fields → Call S (Unit {0})
  pub delete_secret : Text → Call S Bool
  pub secret_exists : Text → Call S Bool
  pub list_secrets : Text → Call S (List Text)
  -- `datetime.now(timezone.utc)` in a state
  pub now : S → Time

-- `datetime.isoformat`, `datetime.fromisoformat`, and `str` of lists and dictionaries.
pub record Formats : Type 0 where
  pub isoformat : Time → Text
  pub fromisoformat : Text → Result Time
  pub repr : Json → Text

-- The text of a time is not empty, and reading it gives the time back.
pub record IsIso (f : Formats) : Type 0 where
  pub written : (t : Time) → truthy (f.isoformat t) ≡ true
  pub read_back : (t : Time) → f.fromisoformat (f.isoformat t) ≡ ok t
