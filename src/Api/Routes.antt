-- ===== src/Api/Routes.antt =====
-- app/api/routes: the handlers of the admin, self-service and runtime routes.
use gotfr_sec.Prelude.{ℕ, Option, none, some, List, if◌then◌else◌}
use gotfr_sec.Prelude.Int.{ℤ}
use gotfr_sec.Prelude.Text.{Text}
use gotfr_sec.Domain.Errors.{
  Error, Result, ok, err, group_already_exists, group_not_found, group_membership_not_found,
  unregistered_user, last_admin_removal, token_not_found, signing_key_unavailable,
  is_reserved_group_error, is_value_error,
}
use gotfr_sec.Repositories.Interfaces.{RepositoryBundle}
use gotfr_sec.Services.Identity.{VerifiedIdentity}
use gotfr_sec.Services.Signer.{TokenSigner}
use gotfr_sec.Services.AdminGroups.{create_group, add_membership, remove_membership}
use gotfr_sec.Services.Tokens.{mint_token, get_token, revoke_token, list_self_tokens}
use gotfr_sec.Services.Runtime.{authorize, get_public_key_document}
use gotfr_sec.Services.Registration.{register_self, get_self_profile}
use gotfr_sec.Exec.{Platform}
use gotfr_sec.Api.{refused, Served, respond, with_identity, with_admin}
use gotfr_sec.Api.Schemas.{
  Body, group_body, membership_body, no_content, minted_body, metadata_body, registered_body,
  profile_body, tokens_body, allowed_body, keys_body, to_metadata_response, me_token_responses,
  TokenMetadataResponse, MeTokenResponse, RuntimeAuthorizationRequestSchema, validate_target,
}

-- The last two `except` clauses of most routes.
abbrev pub value_status : Error → Option ℕ
value_status e = if is_value_error e then some 422 else none

abbrev pub group_statuses : Error → Option ℕ
group_statuses (group_already_exists name) = some 409
group_statuses e = if is_reserved_group_error e then some 409 else value_status e

abbrev pub add_statuses : Error → Option ℕ
add_statuses (group_not_found name) = some 404
add_statuses (unregistered_user sub) = some 404
add_statuses e = value_status e

abbrev pub remove_statuses : Error → Option ℕ
remove_statuses (group_not_found name) = some 404
remove_statuses (group_membership_not_found sub group) = some 404
remove_statuses (unregistered_user sub) = some 404
remove_statuses last_admin_removal = some 409
remove_statuses e = value_status e

abbrev pub mint_statuses : Error → Option ℕ
mint_statuses (unregistered_user sub) = some 404
mint_statuses (group_not_found name) = some 404
mint_statuses signing_key_unavailable = some 503
mint_statuses e = if is_reserved_group_error e then some 409 else value_status e

abbrev pub token_statuses : Error → Option ℕ
token_statuses (token_not_found id) = some 404
token_statuses e = none

-- A route that catches nothing.
abbrev pub no_statuses : Error → Option ℕ
no_statuses e = none

-- A request with its path parameters and its payload.
pub data Request : Type 0 where
  group_posted : Text → Option Text → Request
  membership_posted membership_deleted : Text → Text → Request
  token_posted : Text → List Text → Option ℤ → Request
  token_read token_revoked : Text → Request
  registration_posted me_read my_tokens_read keys_read : Request
  authorization_posted : RuntimeAuthorizationRequestSchema → Request

module _ {S : Type 0} (p : Platform) (r : RepositoryBundle S)
    (verify : Text → Option VerifiedIdentity) where
  unfoldable pub create_group_route : Text → Option Text → Option Text → Option Text → Served S Body
  create_group_route name description credentials cid = with_admin r verify credentials λ admin.
      respond group_statuses (λ g. ok (group_body g))
        (create_group p r name description admin.subject cid)

  unfoldable pub add_group_membership : Text → Text → Option Text → Option Text → Served S Body
  add_group_membership sub group credentials cid = with_admin r verify credentials λ admin.
      respond add_statuses (λ m. ok (membership_body m))
        (add_membership p r sub group admin.subject cid)

  unfoldable pub remove_group_membership : Text → Text → Option Text → Option Text → Served S Body
  remove_group_membership sub group credentials cid = with_admin r verify credentials λ admin.
      respond remove_statuses (λ _. ok no_content)
        (remove_membership p r sub group admin.subject cid)

  abbrev metadata_of : Result TokenMetadataResponse → Result Body
  metadata_of (ok metadata) = ok (metadata_body metadata)
  metadata_of (err e) = err e

  unfoldable pub get_token_route : Text → Option Text → Option Text → Served S Body
  get_token_route id credentials cid = with_admin r verify credentials λ admin.
      respond token_statuses (λ t. metadata_of (to_metadata_response t))
        (get_token p r id admin.subject cid)

  unfoldable pub revoke_token_route : Text → Option Text → Option Text → Served S Body
  revoke_token_route id credentials cid = with_admin r verify credentials λ admin.
      respond token_statuses (λ t. metadata_of (to_metadata_response t))
        (revoke_token p r id admin.subject cid none)

  unfoldable pub register_me : Option Text → Option Text → Served S Body
  register_me credentials cid = with_identity verify credentials λ identity.
      respond no_statuses (λ result. ok (registered_body result.profile result.registration_status))
        (register_self p r identity cid none)

  unfoldable pub get_me : Option Text → Served S Body
  get_me credentials = with_identity verify credentials λ identity.
      respond no_statuses (λ view. ok (profile_body view)) (get_self_profile p r identity)

  abbrev tokens_of : Result (List MeTokenResponse) → Result Body
  tokens_of (ok responses) = ok (tokens_body responses)
  tokens_of (err e) = err e

  unfoldable pub get_my_tokens : Option Text → Option Text → Served S Body
  get_my_tokens credentials cid = with_identity verify credentials λ identity.
      respond no_statuses (λ ts. tokens_of (me_token_responses ts))
        (list_self_tokens p r identity cid)

  abbrev authorize_valid : Option RuntimeAuthorizationRequestSchema → Option Text → Served S Body
  authorize_valid none cid w = (refused 422, w)
  authorize_valid (some q) cid w =
      respond no_statuses (λ decision. ok (allowed_body decision.allowed))
        (authorize p r
          (record {
            token_id = q.token_id;
            owner_sub = some q.owner_sub;
            requested_group = q.group;
            requested_resource = q.resource;
          })
          cid none)
        w

  unfoldable pub authorize_runtime_request :
      RuntimeAuthorizationRequestSchema → Option Text → Served S Body
  authorize_runtime_request payload cid = authorize_valid (validate_target payload) cid

  -- `get_token_signer` runs behind the admin check: without a signer, minting is answered 503.
  module _ (signer : Option (TokenSigner S)) (default_lifetime : ℤ) where
    abbrev minted_of : Text → Result TokenMetadataResponse → Result Body
    minted_of raw (ok metadata) = ok (minted_body metadata raw)
    minted_of raw (err e) = err e

    abbrev mint_with :
        Option (TokenSigner S) → Text → List Text → Option ℤ → Text → Option Text → Served S Body
    mint_with none sub groups expires_in_seconds actor_sub cid w = (refused 503, w)
    mint_with (some signs) sub groups expires_in_seconds actor_sub cid w =
        respond mint_statuses (λ m. minted_of m.raw_token (to_metadata_response m.minted))
          (mint_token p r signs default_lifetime sub groups actor_sub cid expires_in_seconds none) w

    unfoldable pub create_token :
        Text → List Text → Option ℤ → Option Text → Option Text → Served S Body
    create_token sub groups expires_in_seconds credentials cid =
        with_admin r verify credentials
          λ admin. mint_with signer sub groups expires_in_seconds admin.subject cid

    abbrev document_of : Option (TokenSigner S) → Served S Body
    document_of none w = (refused 503, w)
    document_of (some signs) w =
        respond no_statuses (λ keys. ok (keys_body keys)) (get_public_key_document p r signs) w

    unfoldable pub get_runtime_public_keys : Served S Body
    get_runtime_public_keys = document_of signer

    -- Each route with its path parameters and payload; the health routes answer constants and are
    -- left out.
    unfoldable pub serve : Request → Option Text → Option Text → Served S Body
    serve (group_posted name description) credentials cid =
        create_group_route name description credentials cid
    serve (membership_posted sub group) credentials cid =
        add_group_membership sub group credentials cid
    serve (membership_deleted sub group) credentials cid =
        remove_group_membership sub group credentials cid
    serve (token_posted sub groups seconds) credentials cid =
        create_token sub groups seconds credentials cid
    serve (token_read id) credentials cid = get_token_route id credentials cid
    serve (token_revoked id) credentials cid = revoke_token_route id credentials cid
    serve registration_posted credentials cid = register_me credentials cid
    serve me_read credentials cid = get_me credentials
    serve my_tokens_read credentials cid = get_my_tokens credentials cid
    serve keys_read credentials cid = get_runtime_public_keys
    serve (authorization_posted payload) credentials cid = authorize_runtime_request payload cid
