-- ===== src/Api/Target.antt =====
-- The validated request of the runtime route.
use mathlib.Core.Option.{some-injective}
use gotfr_sec.Prelude.{
  subst, Bool, ◌↔◌, ◌≡◌, refl, true, ◌⊎◌, inl, inr, Bool-cases, Option, none, some, arith,
}
use gotfr_sec.Prelude.Text.{Text, strip, truthy}
use gotfr_sec.Repositories.Interfaces.{RepositoryBundle}
use gotfr_sec.Repositories.Lawful.{Reading, IsLawful}
use gotfr_sec.Services.Identity.{VerifiedIdentity}
use gotfr_sec.Services.Runtime.Decision.{IsAllowed, authorize_iff}
use gotfr_sec.Exec.{Platform, World}
use gotfr_sec.Api.{answered}
use gotfr_sec.Api.Routes.{authorize_runtime_request}
use gotfr_sec.Api.Schemas.{
  allowed_body, RuntimeAuthorizationRequestSchema, stripped_or_none, validate_target,
}

-- A text that is given and not empty.
abbrev IsGiven : Option Text → Type 0
IsGiven none = ⊥
IsGiven (some s) = truthy s ≡ true

abbrev IsMissing : Option Text → Type 0
IsMissing none = Unit
IsMissing (some s) = ⊥

-- The token and the owner, stripped and not empty, and exactly one of a group and a resource.
pub record IsTarget (q t : RuntimeAuthorizationRequestSchema) : Type 0 where
  pub token_id : t.token_id ≡ strip q.token_id
  pub owner_sub : t.owner_sub ≡ strip q.owner_sub
  pub token_given : truthy t.token_id ≡ true
  pub owner_given : truthy t.owner_sub ≡ true
  pub one : (IsGiven t.group × IsMissing t.resource) ⊎ (IsMissing t.group × IsGiven t.resource)

given_of : (o : Option Text) (s : Text) → stripped_or_none o ≡ some s → truthy s ≡ true
unfolding stripped_or_none
given_of none s h = absurd (cc)
given_of (some x) s h = elim (Bool-cases (truthy (strip x))) [
  | inl given ↦ ground (arith, given, h)
  | inr blank ↦ absurd (ground (arith, blank, h))
]

-- A payload that passes `validate_target` names a token and an owner, stripped and not empty, and
-- exactly one of a group and a resource, which is not empty.
pub validate_target-IsTarget :
    (q : RuntimeAuthorizationRequestSchema) {t : RuntimeAuthorizationRequestSchema}
    → validate_target q ≡ some t
    → IsTarget q t
unfolding validate_target
validate_target-IsTarget q {t} h =
    go (stripped_or_none q.group) (stripped_or_none q.resource) refl refl
  where
    go :
        (g r : Option Text)
        → stripped_or_none q.group ≡ g
        → stripped_or_none q.resource ≡ r
        → IsTarget q t
    go none none hg hr = absurd (ground (arith, hg, hr, h))
    go (some g) (some r) hg hr = absurd (ground (arith, hg, hr, h))
    go (some g) none hg hr = elim (Bool-cases (truthy (strip q.token_id))) [
      | inl token ↦ elim (Bool-cases (truthy (strip q.owner_sub))) [
        | inl owner ↦
            subst (IsTarget q) (some-injective _ _ (rw (hg, hr, token, owner) at h)) (record {
              token_id = refl;
              owner_sub = refl;
              token_given = token;
              owner_given = owner;
              one = inl (given_of q.group g hg, tt);
            })
        | inr blank ↦ absurd (ground (arith, token, blank, hg, hr, h))
      ]
      | inr blank ↦ absurd (ground (arith, blank, hg, hr, h))
    ]
    go none (some r) hg hr = elim (Bool-cases (truthy (strip q.token_id))) [
      | inl token ↦ elim (Bool-cases (truthy (strip q.owner_sub))) [
        | inl owner ↦
            subst (IsTarget q) (some-injective _ _ (rw (hg, hr, token, owner) at h)) (record {
              token_id = refl;
              owner_sub = refl;
              token_given = token;
              owner_given = owner;
              one = inr (tt, given_of q.resource r hr);
            })
        | inr blank ↦ absurd (ground (arith, token, blank, hg, hr, h))
      ]
      | inr blank ↦ absurd (ground (arith, blank, hg, hr, h))
    ]

module _ {S : Type 0} (p : Platform) (r : RepositoryBundle S) (reading : Reading S)
    (law : IsLawful reading r) (verify : Text → Option VerifiedIdentity) where
  -- The runtime route, on a payload that names a group once it is validated, answers whether the
  -- stored token is owned by the named subject, active, unexpired at the reading of the clock and
  -- granted the group; it asks for no credentials and changes no store.
  pub authorize_runtime_request_iff :
      (q : RuntimeAuthorizationRequestSchema) (id sub group : Text) (cid : Option Text)
      (w : World S)
      → reading.IsValid w.store
      → validate_target q
        ≡ some (record { token_id = id; owner_sub = sub; group = some group; resource = none })
      → truthy group ≡ true
      → let (answer, w') = authorize_runtime_request p r verify q cid w in
        (allowed : Bool) × (answer ≡ answered (allowed_body allowed))
        × (w'.store ≡ w.store)
        × ((allowed ≡ true)
            ↔ IsAllowed (p.clock w.clock_reads) id sub group ((reading.view w.store).token id))
  unfolding authorize_runtime_request
  authorize_runtime_request_iff q id sub group cid w valid target named =
      let (decision, returned, same, iff) =
        authorize_iff p r reading law id sub group cid none w valid named in
      rw target (decision.allowed, rw returned refl, same, iff)
