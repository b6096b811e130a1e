-- ===== src/Domain/Models.antt =====
-- app/domain/models.py: the frozen dataclasses. A field with a default is given at each use.
use gotfr_sec.Prelude.{ℕ, ◌*◌, Bool, Option, List}
use gotfr_sec.Prelude.Text.{Text}

-- A `datetime` in UTC: microseconds since the first instant that a `datetime` can hold.
abbrev pub Time : Type 0
Time = ℕ

-- The microseconds from there to the end of the year 9999: `datetime` holds no later instant.
abbrev pub time_limit : ℕ
time_limit = 3652059 * 86400 * 1000000

abbrev pub microseconds : ℕ → ℕ
microseconds seconds = seconds * 1000000

pub record GroupDefinition : Type 0 where
  pub name : Text
  pub description : Option Text
  pub is_system : Bool
  pub is_active : Bool
  pub created_at : Time

pub record UserProfile : Type 0 where
  pub keycloak_sub : Text
  pub registered_at : Time
  pub updated_at : Time
  pub display_name : Option Text
  pub email : Option Text

pub record UserGroupMembership : Type 0 where
  pub keycloak_sub : Text
  pub group_name : Text
  pub granted_at : Time
  pub granted_by_sub : Option Text

-- The field `status`; `unrecognised` is any other text that a stored document may hold.
pub data TokenStatus : Type 0 where
  active revoked : TokenStatus
  unrecognised : Text → TokenStatus

pub record IssuedTokenRecord : Type 0 where
  pub token_id : Text
  pub owner_sub : Text
  pub granted_groups : List Text
  pub status : TokenStatus
  pub issued_at : Time
  pub expires_at : Option Time
  pub issued_by_sub : Option Text
  pub jwt_hash : Option Text
  pub pending_reveal : Bool
  pub revoked_at : Option Time

pub record AuthorizationRequest : Type 0 where
  pub token_id : Text
  pub owner_sub : Option Text
  pub requested_group : Option Text
  pub requested_resource : Option Text

pub record AuthorizationDecision : Type 0 where
  pub allowed : Bool

-- The texts that the services give as `event_type`.
pub data EventType : Type 0 where
  group_create membership_add membership_remove : EventType
  token_mint token_inspect token_revoke : EventType
  registration token_list authorize : EventType

-- The texts that the services give as `result`.
pub data Outcome : Type 0 where
  success failure created refreshed allow deny : Outcome

pub record AuditEvent : Type 0 where
  pub event_type : EventType
  pub actor_sub : Option Text
  pub subject_sub : Option Text
  pub group_name : Option Text
  pub token_id : Option Text
  pub resource : Option Text
  pub correlation_id : Option Text
  pub outcome : Outcome
  pub occurred_at : Time
