-- ===== src/Api/Admin.antt =====
-- The gate of the admin routes.
use gotfr_sec.Prelude.{ℕ, ◌≡◌, Bool, true, false, Option, none, some, is_some}
use gotfr_sec.Prelude.Text.{Text}
use gotfr_sec.Domain.Rules.{reserved_admin_group}
use gotfr_sec.Repositories.View.{View}
use gotfr_sec.Services.Identity.{VerifiedIdentity}
use gotfr_sec.Api.Routes.{
  Request, group_posted, membership_posted, membership_deleted, token_posted, token_read,
  token_revoked,
}

-- The requests of the routes that depend on `require_admin_identity`.
abbrev pub is_admin_request : Request → Bool
is_admin_request (group_posted name description) = true
is_admin_request (membership_posted sub group) = true
is_admin_request (membership_deleted sub group) = true
is_admin_request (token_posted sub groups seconds) = true
is_admin_request (token_read id) = true
is_admin_request (token_revoked id) = true
is_admin_request _ = false

-- A caller that is not verified, or that does not belong to the reserved group.
abbrev pub IsStranger : View → Option VerifiedIdentity → Type 0
IsStranger v none = Unit
IsStranger v (some identity) = is_some (v.membership identity.subject reserved_admin_group) ≡ false

abbrev pub refusal : Option VerifiedIdentity → ℕ
refusal none = 401
refusal (some identity) = 403
