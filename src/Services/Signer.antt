-- ===== src/Services/Signer.antt =====
-- The protocol `TokenSigner` of app/services/token_service.py.
use gotfr_sec.Prelude.{Option, List}
use gotfr_sec.Prelude.Text.{Text}
use gotfr_sec.Domain.Models.{Time}
use gotfr_sec.Repositories.Interfaces.{Call}

-- An entry of a key set; `usage` is its member "use".
pub record Jwk : Type 0 where
  pub kid : Text
  pub kty : Text
  pub alg : Text
  pub usage : Text
  pub n : Text
  pub e : Text

-- A signer may read its key from the state of the stores, and may raise. `sign_token` takes the
-- token's id, its owner, and the times of its issue and expiry.
pub record TokenSigner (S : Type 0) : Type 0 where
  pub sign_token : Text → Text → Time → Option Time → Call S Text
  pub public_key_pem : Call S Text
  pub public_key_document : Call S (List Jwk)
