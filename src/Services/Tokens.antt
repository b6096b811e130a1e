-- ===== src/Services/Tokens.antt =====
-- app/services/token_service.py: `AdminTokenService` and `UserTokenService`.
pub mod Groups
pub mod Audit
pub mod Mint
pub mod Minted
pub mod Revoke
pub mod Listing
pub mod Examples
use gotfr_sec.Prelude.{
  ℕ, ◌+◌, Bool, true, false, not, Option, none, some, List, [], ◌∷◌, ◌++◌, contains, ltb, leb,
  if◌then◌else◌,
}
use gotfr_sec.Prelude.Int.{ℤ, is_nonpositive, to_ℕ}
use gotfr_sec.Prelude.Text.{Text, text_eq, is_ascii}
use gotfr_sec.Domain.Errors.{
  Result, ok, err, group_not_found, unregistered_user, token_not_found, value_error, overflow_error,
  unicode_encode_error,
}
use gotfr_sec.Domain.Models.{
  Time, time_limit, microseconds, IssuedTokenRecord, TokenStatus, active, revoked, AuditEvent,
  EventType, token_mint, token_inspect, token_revoke, token_list, Outcome, success, failure,
}
use gotfr_sec.Domain.Rules.{ensure_runtime_groups_allowed}
use gotfr_sec.Repositories.Interfaces.{RepositoryBundle}
use gotfr_sec.Services.Identity.{VerifiedIdentity}
use gotfr_sec.Services.Signer.{TokenSigner}
use gotfr_sec.Services.AdminGroups.{is_unusable}
use gotfr_sec.Exec.{
  Platform, Exec, pure, lift, stored, ◌>>=◌, ◌>>◌, raise_if, or_now, uuid4_hex, audited,
}

pub record MintedTokenResult : Type 0 where
  pub minted : IssuedTokenRecord
  pub raw_token : Text

-- `issued_at + timedelta(seconds=...)`, for a positive number of seconds.
unfoldable pub add_seconds : Time → ℕ → Result Time
add_seconds t seconds =
    let later = t + microseconds seconds in
    if ltb later time_limit then ok later else err overflow_error

-- `s.encode("ascii")`.
unfoldable pub encode_ascii : Text → Result Text
unfolding is_ascii
encode_ascii s = if is_ascii s then ok s else err unicode_encode_error

-- `bool(names)`.
abbrev pub is_empty : {A : Type 0} → List A → Bool
is_empty [] = true
is_empty (_ ∷ _) = false

abbrev pub is_revoked : TokenStatus → Bool
is_revoked revoked = true
is_revoked _ = false

abbrev pub lifetime_or : ℤ → Option ℤ → ℤ
lifetime_or default_lifetime none = default_lifetime
lifetime_or default_lifetime (some seconds) = seconds

-- `sorted(..., key=issued_at, reverse=True)`: later first, equal times in their old order.
insert_latest : IssuedTokenRecord → List IssuedTokenRecord → List IssuedTokenRecord
insert_latest t [] = t ∷ []
insert_latest t (u ∷ us) =
    if leb u.issued_at t.issued_at then t ∷ u ∷ us else u ∷ insert_latest t us

pub latest_first : List IssuedTokenRecord → List IssuedTokenRecord
unfolding insert_latest
latest_first [] = []
latest_first (t ∷ ts) = insert_latest t (latest_first ts)

-- The record that was found, or the error that names the id.
abbrev pub found_token : Text → Option IssuedTokenRecord → Result IssuedTokenRecord
found_token id none = err (token_not_found id)
found_token id (some t) = ok t

-- The events of the token services name no group and no resource.
abbrev pub token_event :
    EventType → Text → Option Text → Option Text → Option Text → Outcome → Time → AuditEvent
token_event event_type actor_sub subject_sub token_id correlation_id outcome now = record {
  event_type = event_type;
  actor_sub = some actor_sub;
  subject_sub = subject_sub;
  group_name = none;
  token_id = token_id;
  resource = none;
  correlation_id = correlation_id;
  outcome = outcome;
  occurred_at = now;
}

module _ {S : Type 0} (p : Platform) (r : RepositoryBundle S) where
  -- The loop of `_validate_groups`: each name once, in the order of first mention.
  pub collect_groups : List Text → List Text → List Text → Exec S (List Text)
  collect_groups unique seen [] = pure unique
  collect_groups unique seen (name ∷ names) = elim (contains name seen) [
    | true ↦ collect_groups unique seen names
    | false ↦ do
      group ← stored (r.groups.get name)
      raise_if (is_unusable group) (group_not_found name)
      collect_groups (unique ++ name ∷ []) (name ∷ seen) names
  ]

  -- `_validate_groups`.
  pub validate_groups : List Text → Exec S (List Text)
  validate_groups groups = do
    normalized ← lift (ensure_runtime_groups_allowed p.wide groups)
    raise_if (is_empty normalized) value_error
    collect_groups [] [] normalized

  -- `_get_token_or_raise`.
  pub get_token_or_raise : Text → Exec S IssuedTokenRecord
  get_token_or_raise id = do found ← stored (r.tokens.get id); lift (found_token id found)

  pub get_token : Text → Text → Option Text → Exec S IssuedTokenRecord
  get_token id actor_sub correlation_id =
      audited p (token_event token_inspect actor_sub none (some id) correlation_id failure)
        (λ t.
          token_event token_inspect actor_sub (some t.owner_sub) (some id) correlation_id success)
        (get_token_or_raise id)

  revoke_found : IssuedTokenRecord → Option Time → Exec S IssuedTokenRecord
  revoke_found current now = if is_revoked current.status then pure current else do
    revoked_at ← or_now p now
    stored (r.tokens.upsert (record current { status = revoked; revoked_at = some revoked_at }))

  revoke_body : Text → Option Time → Exec S IssuedTokenRecord
  revoke_body id now = do current ← get_token_or_raise id; revoke_found current now

  pub revoke_token : Text → Text → Option Text → Option Time → Exec S IssuedTokenRecord
  revoke_token id actor_sub correlation_id now =
      audited p (token_event token_revoke actor_sub none (some id) correlation_id failure)
        (λ t.
          token_event token_revoke actor_sub (some t.owner_sub) (some id) correlation_id success)
        (revoke_body id now)

  -- `default_lifetime` is the service's `default_lifetime_seconds`.
  module _ (signer : TokenSigner S) (default_lifetime : ℤ) where
    -- The second half of `mint_token`: the token is signed and its record stored.
    issue : Text → List Text → Text → ℕ → Time → Exec S MintedTokenResult
    issue owner_sub granted actor_sub seconds issued_at = do
      expires_at ← lift (add_seconds issued_at seconds)
      id ← uuid4_hex p
      raw ← stored (signer.sign_token id owner_sub issued_at (some expires_at))
      encoded ← lift (encode_ascii raw)
      minted ← stored (
          r.tokens.upsert (record {
            token_id = id;
            owner_sub = owner_sub;
            granted_groups = granted;
            status = active;
            issued_at = issued_at;
            expires_at = some expires_at;
            issued_by_sub = some actor_sub;
            jwt_hash = some (p.sha256_hex encoded);
            pending_reveal = false;
            revoked_at = none;
          }))
      pure (record { minted = minted; raw_token = raw })

    mint_body : Text → List Text → Text → Option ℤ → Option Time → Exec S MintedTokenResult
    mint_body owner_sub groups actor_sub expires_in_seconds now = do
      registered ← stored (r.user_profiles.is_registered owner_sub)
      raise_if (not registered) (unregistered_user owner_sub)
      granted ← validate_groups groups
      let lifetime = lifetime_or default_lifetime expires_in_seconds
      raise_if (is_nonpositive lifetime) value_error
      issued_at ← or_now p now
      issue owner_sub granted actor_sub (to_ℕ lifetime) issued_at

    pub mint_token :
        Text → List Text → Text → Option Text → Option ℤ → Option Time → Exec S MintedTokenResult
    mint_token owner_sub groups actor_sub correlation_id expires_in_seconds now =
        audited p (token_event token_mint actor_sub (some owner_sub) none correlation_id failure)
          (λ m.
            token_event token_mint actor_sub (some owner_sub) (some m.minted.token_id)
              correlation_id success)
          (mint_body owner_sub groups actor_sub expires_in_seconds now)

  -- `UserTokenService.list_self_tokens`.
  pub list_self_tokens : VerifiedIdentity → Option Text → Exec S (List IssuedTokenRecord)
  list_self_tokens identity correlation_id =
      let subject = identity.subject in
      audited p (token_event token_list subject (some subject) none correlation_id failure)
        (λ _. token_event token_list subject (some subject) none correlation_id success)
        (do listed ← stored (r.tokens.list_for_user subject); pure (latest_first listed))
