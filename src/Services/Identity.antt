-- ===== src/Services/Identity.antt =====
-- The verified caller of a request, as gofr_common hands it to the services.
use gotfr_sec.Prelude.{Option}
use gotfr_sec.Prelude.Text.{Text}

-- A value of the claims of a verified token: a text, or anything else.
pub data Claim : Type 0 where
  str : Text → Claim
  other : Claim

-- `VerifiedIdentity` of gofr_common, as far as the services read it.
pub record VerifiedIdentity : Type 0 where
  pub subject : Text
  pub claims : Text → Option Claim
