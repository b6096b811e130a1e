-- ===== src/Services/Registration.antt =====
-- app/services/user_registration_service.py: `UserRegistrationService`.
pub mod Registers
pub mod Profile
pub mod Groups
use gotfr_sec.Prelude.{
  Bool, true, false, Option, none, some, List, [], ◌∷◌, map, ltb, nat_beq, if◌then◌else◌,
}
use gotfr_sec.Prelude.Text.{Text, text, strip, truthy, or_else}
use gotfr_sec.Prelude.Text.Order.{sorted_names}
use gotfr_sec.Domain.Errors.{Result, ok, err, unregistered_user}
use gotfr_sec.Domain.Models.{
  Time, UserProfile, AuditEvent, registration, Outcome, failure, created, refreshed,
}
use gotfr_sec.Repositories.Interfaces.{RepositoryBundle}
use gotfr_sec.Services.Identity.{Claim, str, other, VerifiedIdentity}
use gotfr_sec.Exec.{Platform, Exec, pure, lift, stored, ◌>>=◌, or_now, audited}

-- `_string_claim`, on the value found.
unfoldable pub string_claim : Option Claim → Option Text
string_claim (some (str value)) = if truthy (strip value) then some value else none
string_claim (some other) = none
string_claim none = none

pub record RegistrationResult : Type 0 where
  pub profile : UserProfile
  pub registration_status : Outcome

pub record MeProfileView : Type 0 where
  pub keycloak_sub : Text
  pub is_registered : Bool
  pub display_name : Option Text
  pub email : Option Text
  pub registered_at : Option Time
  pub updated_at : Option Time
  pub groups : List Text

abbrev pub registration_event : Text → Option Text → Outcome → Time → AuditEvent
registration_event subject correlation_id outcome now = record {
  event_type = registration;
  actor_sub = some subject;
  subject_sub = some subject;
  group_name = none;
  token_id = none;
  resource = none;
  correlation_id = correlation_id;
  outcome = outcome;
  occurred_at = now;
}

-- The new profile: the first registration time stays, and so does a name or an address that the
-- claims no longer give.
unfoldable pub refreshed_profile :
    Text → Option Text → Option Text → Time → Option UserProfile → UserProfile
refreshed_profile subject display_name email now none = record {
  keycloak_sub = subject;
  registered_at = now;
  updated_at = now;
  display_name = display_name;
  email = email;
}
refreshed_profile subject display_name email now (some existing) = record {
  keycloak_sub = subject;
  registered_at = existing.registered_at;
  updated_at = now;
  display_name = or_else display_name existing.display_name;
  email = or_else email existing.email;
}

abbrev pub registration_status : Option UserProfile → Outcome
registration_status none = created
registration_status (some _) = refreshed

unfoldable pub profile_view : Text → List Text → Option UserProfile → MeProfileView
profile_view subject groups none = record {
  keycloak_sub = subject;
  is_registered = false;
  display_name = none;
  email = none;
  registered_at = none;
  updated_at = none;
  groups = groups;
}
profile_view subject groups (some profile) = record {
  keycloak_sub = profile.keycloak_sub;
  is_registered = true;
  display_name = profile.display_name;
  email = profile.email;
  registered_at = some profile.registered_at;
  updated_at = some profile.updated_at;
  groups = groups;
}

abbrev found_profile : Text → Option UserProfile → Result UserProfile
found_profile sub none = err (unregistered_user sub)
found_profile sub (some profile) = ok profile

module _ {S : Type 0} (p : Platform) (r : RepositoryBundle S) where
  pub register_self : VerifiedIdentity → Option Text → Option Time → Exec S RegistrationResult
  register_self identity correlation_id now = do
    let subject = identity.subject
    existing ← stored (r.user_profiles.get subject)
    timestamp ← or_now p now
    let display_name = string_claim (identity.claims (text "name"))
    let email = string_claim (identity.claims (text "email"))
    let fresh = refreshed_profile subject display_name email timestamp existing
    saved ←
        audited p (registration_event subject correlation_id failure)
          (λ _. registration_event subject correlation_id (registration_status existing))
          (stored (r.user_profiles.upsert fresh))
    pure (record { profile = saved; registration_status = registration_status existing })

  pub get_self_profile : VerifiedIdentity → Exec S MeProfileView
  get_self_profile identity = do
    let subject = identity.subject
    profile ← stored (r.user_profiles.get subject)
    listed ← stored (r.memberships.list_for_user subject)
    pure (profile_view subject (sorted_names (map (λ m. m.group_name) listed)) profile)

  pub require_registered_user : Text → Exec S UserProfile
  require_registered_user sub = do
    profile ← stored (r.user_profiles.get sub)
    lift (found_profile sub profile)
