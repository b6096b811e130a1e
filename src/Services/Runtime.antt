-- ===== src/Services/Runtime.antt =====
-- app/services/runtime_service.py: `RuntimeAuthorizationService`.
pub mod Decision
use gotfr_sec.Prelude.{Bool, true, false, ◌&&◌, Option, none, some, List, ◌==◌, contains, ltb}
use gotfr_sec.Prelude.Text.{Text, text_eq, truthy, or_else}
use gotfr_sec.Domain.Models.{
  Time, IssuedTokenRecord, TokenStatus, active, AuthorizationRequest, AuthorizationDecision,
  AuditEvent, authorize as authorize_event, Outcome, failure, allow, deny,
}
use gotfr_sec.Repositories.Interfaces.{RepositoryBundle}
use gotfr_sec.Services.Signer.{TokenSigner, Jwk}
use gotfr_sec.Exec.{Platform, Exec, pure, stored, ◌>>=◌, or_now, audited}

abbrev pub is_active_status : TokenStatus → Bool
is_active_status active = true
is_active_status _ = false

-- `record.owner_sub == authorization_request.owner_sub`.
abbrev pub owned_by : Option Text → IssuedTokenRecord → Bool
owned_by none t = false
owned_by (some sub) t = t.owner_sub == sub

-- `record.expires_at is None or current_time < record.expires_at`.
abbrev pub unexpired_at : Time → Option Time → Bool
unexpired_at now none = true
unexpired_at now (some expiry) = ltb now expiry

-- A required permission that is granted; none is required of a request that names none.
abbrev pub grants : Option Text → IssuedTokenRecord → Bool
grants none t = false
grants (some permission) t = truthy permission && contains permission t.granted_groups

abbrev pub required_permission : AuthorizationRequest → Option Text
required_permission q = or_else q.requested_group q.requested_resource

unfoldable pub allows : Time → AuthorizationRequest → Option IssuedTokenRecord → Bool
allows now q none = false
allows now q (some t) =
    owned_by q.owner_sub t
    && is_active_status t.status
    && unexpired_at now t.expires_at
    && grants (required_permission q) t

abbrev pub verdict : Bool → Outcome
verdict true = allow
verdict false = deny

abbrev pub runtime_event : AuthorizationRequest → Option Text → Outcome → Time → AuditEvent
runtime_event q correlation_id outcome now = record {
  event_type = authorize_event;
  actor_sub = q.owner_sub;
  subject_sub = q.owner_sub;
  group_name = q.requested_group;
  token_id = some q.token_id;
  resource = q.requested_resource;
  correlation_id = correlation_id;
  outcome = outcome;
  occurred_at = now;
}

module _ {S : Type 0} (p : Platform) (r : RepositoryBundle S) where
  pub get_public_key_document : TokenSigner S → Exec S (List Jwk)
  get_public_key_document signer = stored signer.public_key_document

  pub authorize : AuthorizationRequest → Option Text → Option Time → Exec S AuthorizationDecision
  authorize q correlation_id now = do
    current_time ← or_now p now
    allowed ←
        audited p (runtime_event q correlation_id failure)
          (λ allowed. runtime_event q correlation_id (verdict allowed))
          (do found ← stored (r.tokens.get q.token_id); pure (allows current_time q found))
    pure (record { allowed = allowed })
