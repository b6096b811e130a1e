-- ===== src/Domain/Errors.antt =====
-- app/domain/errors.py, with the other exceptions that the modelled code raises. An exception
-- carries what its message names; the wording of messages is not modelled.
use gotfr_sec.Prelude.{Bool, true, false}
use gotfr_sec.Prelude.Text.{Text}

pub data Error : Type 0 where
  reserved_group last_admin_removal : Error
  group_already_exists group_not_found : Text → Error
  group_membership_not_found : Text → Text → Error
  unregistered_user : Text → Error
  token_not_found : Text → Error
  signing_key_unavailable token_reveal_not_allowed : Error
  -- `ValueError`, and `UnicodeEncodeError`, a subclass of it
  value_error unicode_encode_error : Error
  -- `OverflowError`, which is no `ValueError`
  overflow_error : Error
  -- a missing key of a dictionary, and a value of a wrong type
  key_error : Text → Error
  type_error : Error
  -- raised by code outside the repository, such as the Vault client
  external_error : Text → Error

-- `except ReservedGroupError`: `LastAdminRemovalError` is a subclass.
abbrev pub is_reserved_group_error : Error → Bool
is_reserved_group_error reserved_group = true
is_reserved_group_error last_admin_removal = true
is_reserved_group_error _ = false

-- `except ValueError`.
abbrev pub is_value_error : Error → Bool
is_value_error value_error = true
is_value_error unicode_encode_error = true
is_value_error _ = false

-- A call of a pure function that may raise.
pub data Result {ℓ} (A : Type ℓ) : Type ℓ where
  ok : A → Result A
  err : Error → Result A
