-- ===== src/Api/Schemas.antt =====
-- app/api/schemas: the bodies of responses, and the validated request of the runtime route.
use gotfr_sec.Prelude.{
  Bool, true, false, ◌||◌, not, Option, none, some, List, [], ◌∷◌, if◌then◌else◌,
}
use gotfr_sec.Prelude.Text.{Text, strip, truthy}
use gotfr_sec.Domain.Errors.{Result, ok, err, value_error}
use gotfr_sec.Domain.Models.{
  Time, GroupDefinition, UserGroupMembership, UserProfile, IssuedTokenRecord, TokenStatus,
  unrecognised, Outcome,
}
use gotfr_sec.Services.Signer.{Jwk}
use gotfr_sec.Services.Registration.{MeProfileView}

-- The field `status` of a token's response: a document that holds another text than these two
-- fails the validation of the response.
pub data ResponseStatus : Type 0 where
  active revoked : ResponseStatus

pub record TokenMetadataResponse : Type 0 where
  pub token_id : Text
  pub owner_sub : Text
  pub granted_groups : List Text
  pub status : ResponseStatus
  pub issued_at : Time
  pub expires_at : Option Time
  pub revoked_at : Option Time
  pub issued_by_sub : Option Text

-- The same without the owner, who is the caller.
pub record MeTokenResponse : Type 0 where
  pub token_id : Text
  pub granted_groups : List Text
  pub status : ResponseStatus
  pub issued_at : Time
  pub expires_at : Option Time
  pub revoked_at : Option Time
  pub issued_by_sub : Option Text

-- `GroupResponse`, `GroupMembershipResponse` and `MeProfileResponse` have the fields of the value
-- that they are built from.
pub data Body : Type 0 where
  group_body : GroupDefinition → Body
  membership_body : UserGroupMembership → Body
  no_content : Body
  minted_body : TokenMetadataResponse → Text → Body
  metadata_body : TokenMetadataResponse → Body
  registered_body : UserProfile → Outcome → Body
  profile_body : MeProfileView → Body
  tokens_body : List MeTokenResponse → Body
  allowed_body : Bool → Body
  keys_body : List Jwk → Body

abbrev pub response_status : TokenStatus → Result ResponseStatus
response_status TokenStatus.active = ok active
response_status TokenStatus.revoked = ok revoked
response_status (unrecognised name) = err value_error

abbrev with_status : {A : Type 0} → (ResponseStatus → A) → Result ResponseStatus → Result A
with_status f (ok status) = ok (f status)
with_status f (err e) = err e

-- `_to_metadata_response`.
unfoldable pub to_metadata_response : IssuedTokenRecord → Result TokenMetadataResponse
to_metadata_response t =
    with_status
      (λ status. record {
        token_id = t.token_id;
        owner_sub = t.owner_sub;
        granted_groups = t.granted_groups;
        status = status;
        issued_at = t.issued_at;
        expires_at = t.expires_at;
        revoked_at = t.revoked_at;
        issued_by_sub = t.issued_by_sub;
      })
      (response_status t.status)

unfoldable pub me_token_response : IssuedTokenRecord → Result MeTokenResponse
me_token_response t =
    with_status
      (λ status. record {
        token_id = t.token_id;
        granted_groups = t.granted_groups;
        status = status;
        issued_at = t.issued_at;
        expires_at = t.expires_at;
        revoked_at = t.revoked_at;
        issued_by_sub = t.issued_by_sub;
      })
      (response_status t.status)

abbrev cons_response :
    Result MeTokenResponse → Result (List MeTokenResponse) → Result (List MeTokenResponse)
cons_response (err e) rest = err e
cons_response (ok response) (err e) = err e
cons_response (ok response) (ok responses) = ok (response ∷ responses)

-- The comprehension of `get_my_tokens`.
pub me_token_responses : List IssuedTokenRecord → Result (List MeTokenResponse)
me_token_responses [] = ok []
me_token_responses (t ∷ ts) = cons_response (me_token_response t) (me_token_responses ts)

pub record RuntimeAuthorizationRequestSchema : Type 0 where
  pub token_id : Text
  pub owner_sub : Text
  pub group : Option Text
  pub resource : Option Text

-- `x.strip() if x and x.strip() else None`.
unfoldable pub stripped_or_none : Option Text → Option Text
stripped_or_none none = none
stripped_or_none (some s) = let value = strip s in if truthy value then some value else none

abbrev same_presence : Option Text → Option Text → Bool
same_presence none none = true
same_presence (some _) (some _) = true
same_presence _ _ = false

-- `validate_target`; a refused payload is answered with 422.
unfoldable pub validate_target :
    RuntimeAuthorizationRequestSchema → Option RuntimeAuthorizationRequestSchema
unfolding stripped_or_none
validate_target q =
    let token_id = strip q.token_id in
    let owner_sub = strip q.owner_sub in
    let group = stripped_or_none q.group in
    let resource = stripped_or_none q.resource in
    if not (truthy token_id) || not (truthy owner_sub) || same_presence group resource
    then none
    else some
        (record { token_id = token_id; owner_sub = owner_sub; group = group; resource = resource })
