-- ===== src/Api.antt =====
-- app/api/dependencies.py: the caller of a request, and what a route answers. FastAPI finds the
-- route of a request, runs its dependencies in the order of its parameters and hands it the
-- validated payload; a route is a function of the credentials and the payload here.
pub mod Schemas
pub mod Routes
pub mod Admin
pub mod Governed
pub mod Gates
pub mod Keeps
pub mod History
pub mod Target
use gotfr_sec.Prelude.{ℕ, Bool, true, false, Option, none, some, if◌then◌else◌}
use gotfr_sec.Prelude.Text.{Text, strip, truthy}
use gotfr_sec.Domain.Errors.{Error, Result, ok, err}
use gotfr_sec.Domain.Rules.{reserved_admin_group}
use gotfr_sec.Repositories.Interfaces.{RepositoryBundle}
use gotfr_sec.Services.Identity.{VerifiedIdentity}
use gotfr_sec.Exec.{World, Exec, stored}

-- What a route answers: a body, an `HTTPException` with its status code, or an exception that it
-- does not catch, which the server answers with 500.
pub data Reply (A : Type 0) : Type 0 where
  answered : A → Reply A
  refused : ℕ → Reply A
  crashed : Error → Reply A

abbrev pub Served : Type 0 → Type 0 → Type 0
Served S A = World S → Reply A × World S

module _ {B : Type 0} where
  abbrev pub refuse_or_crash : Error → Option ℕ → Reply B
  refuse_or_crash e (some status) = refused status
  refuse_or_crash e none = crashed e

  abbrev pub built : Result B → Reply B
  built (ok body) = answered body
  built (err e) = crashed e

module _ {A B : Type 0} (statuses : Error → Option ℕ) (build : A → Result B) where
  abbrev pub reply : Result A → Reply B
  reply (ok a) = built (build a)
  reply (err e) = refuse_or_crash e (statuses e)

  -- `try: service call except ...: raise HTTPException(...)`, and the response built behind it:
  -- `statuses` gives the status code of each caught exception.
  abbrev pub respond : {S : Type 0} → Exec S A → Served S B
  respond call w = let (result, after) = call w in (reply result, after)

-- `verify` is the verifier's answer to a bearer token at the time of the request; a token that it
-- rejects has none.
module _ (verify : Text → Option VerifiedIdentity) where
  abbrev pub identified : Option Text → Option VerifiedIdentity
  identified none = none
  identified (some credentials) = if truthy (strip credentials) then verify credentials else none

module _ {S B : Type 0} where
  abbrev pub for_identity : Option VerifiedIdentity → (VerifiedIdentity → Served S B) → Served S B
  for_identity none route w = (refused 401, w)
  for_identity (some identity) route w = route identity w

  -- A route that depends on `get_verified_identity`.
  abbrev pub with_identity :
      (Text → Option VerifiedIdentity) → Option Text → (VerifiedIdentity → Served S B) → Served S B
  with_identity verify credentials = for_identity (identified verify credentials)

  abbrev pub for_member : Result Bool → Served S B → Served S B
  for_member (err e) route w = (crashed e, w)
  for_member (ok true) route w = route w
  for_member (ok false) route w = (refused 403, w)

  -- A route that depends on `require_admin_identity`.
  abbrev pub with_admin :
      RepositoryBundle S
      → (Text → Option VerifiedIdentity)
      → Option Text
      → (VerifiedIdentity → Served S B)
      → Served S B
  with_admin r verify credentials route = with_identity verify credentials λ identity w.
      let (member, after) =
        stored (r.memberships.has_membership identity.subject reserved_admin_group) w in
      for_member member (route identity) after
