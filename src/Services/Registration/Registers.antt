-- ===== src/Services/Registration/Registers.antt =====
-- What a registration returns, described field by field from the claims and the profile that was
-- stored before.
use gotfr_sec.Prelude.{
  ◌⊎◌, inl, inr, true, false, Bool-cases, [], ◌∷◌, ◌≡◌, refl, Option, none, some,
}
use gotfr_sec.Prelude.Text.{Text, text, text_eq, strip, truthy, or_else}
use gotfr_sec.Domain.Models.{Time, UserProfile, created, refreshed}
use gotfr_sec.Services.Identity.{Claim, str, other, VerifiedIdentity}
use gotfr_sec.Services.Registration.{
  RegistrationResult, registration_status, refreshed_profile, string_claim,
}

-- The profile that a registration at a time stores.
abbrev pub registered : VerifiedIdentity → Time → Option UserProfile → UserProfile
registered identity now =
    refreshed_profile identity.subject (string_claim (identity.claims (text "name")))
      (string_claim (identity.claims (text "email"))) now

abbrev pub field_of : {A : Type 0} → (UserProfile → Option A) → Option UserProfile → Option A
field_of field none = none
field_of field (some profile) = field profile

-- A claim that is not a text, or a blank one.
abbrev pub IsMissing : Option Claim → Type 0
IsMissing none = Unit
IsMissing (some other) = Unit
IsMissing (some (str s)) = truthy (strip s) ≡ false

-- What is shown is the text of the claim, or what was shown before where the claim is missing.
abbrev pub ComesFrom : Option Claim → Option Text → Option Text → Type 0
ComesFrom claim old shown =
    ((s : Text) × (claim ≡ some (str s)) × (truthy (strip s) ≡ true) × (shown ≡ some s))
    ⊎ (IsMissing claim × (shown ≡ old))

-- The outcome of a registration at a time, written field by field.
pub record Registers (identity : VerifiedIdentity) (now : Time) (existing : Option UserProfile)
    (result : RegistrationResult) : Type 0 where
  pub keycloak_sub : result.profile.keycloak_sub ≡ identity.subject
  pub updated_at : result.profile.updated_at ≡ now
  pub display_name :
      ComesFrom
        (identity.claims (text "name"))
        (field_of (λ p. p.display_name) existing)
        result.profile.display_name
  pub email :
      ComesFrom
        (identity.claims (text "email"))
        (field_of (λ p. p.email) existing)
        result.profile.email
  pub first :
      ((existing ≡ none)
        × (result.profile.registered_at ≡ now)
        × (result.registration_status ≡ created))
      ⊎ ((old : UserProfile) × (existing ≡ some old)
          × (result.profile.registered_at ≡ old.registered_at)
          × (result.registration_status ≡ refreshed))

or_else_given :
    (s : Text) (old : Option Text) → truthy (strip s) ≡ true → or_else (some s) old ≡ some s
unfolding strip
or_else_given [] old h = absurd (cc)
or_else_given (c ∷ s) old h = refl

string_claim_cases :
    (claim : Option Claim)
    → ((s : Text) × (claim ≡ some (str s))
        × (truthy (strip s) ≡ true)
        × (string_claim claim ≡ some s))
      ⊎ (IsMissing claim × (string_claim claim ≡ none))
unfolding string_claim
string_claim_cases none = inr (tt, refl)
string_claim_cases (some other) = inr (tt, refl)
string_claim_cases (some (str s)) = elim (Bool-cases (truthy (strip s))) [
  | inl given ↦ inl (s, refl, given, rw given refl)
  | inr blank ↦ inr (blank, rw blank refl)
]

string_claim-ComesFrom : (claim : Option Claim) → ComesFrom claim none (string_claim claim)
string_claim-ComesFrom claim = string_claim_cases claim

or_else-ComesFrom :
    (claim : Option Claim) (old : Option Text)
    → ComesFrom claim old (or_else (string_claim claim) old)
or_else-ComesFrom claim old = elim (string_claim_cases claim) [
  | inl (s, e, given, value) ↦ inl (s, e, given, rw value (or_else_given s old given))
  | inr (blank, value) ↦ inr (blank, rw value refl)
]

pub registered-Registers :
    (identity : VerifiedIdentity) (now : Time) (existing : Option UserProfile)
    → Registers identity now existing (record {
      profile = registered identity now existing;
      registration_status = registration_status existing;
    })
unfolding refreshed_profile
registered-Registers identity now none = record {
  keycloak_sub = refl;
  updated_at = refl;
  display_name = string_claim-ComesFrom (identity.claims (text "name"));
  email = string_claim-ComesFrom (identity.claims (text "email"));
  first = inl (refl, refl, refl);
}
registered-Registers identity now (some old) = record {
  keycloak_sub = refl;
  updated_at = refl;
  display_name = or_else-ComesFrom (identity.claims (text "name")) old.display_name;
  email = or_else-ComesFrom (identity.claims (text "email")) old.email;
  first = inr (old, refl, refl, refl);
}
