-- ===== src/Services/Runtime/Decision.antt =====
-- When a runtime request is allowed.
use mathlib.Core.Option.{some-injective}
use gotfr_sec.Prelude.{
  ◌<◌, ◌↔◌, refl, subst, sym, true, ltb→lt, lt→ltb, ==_iff, contains, arith, suc, ◌≡◌, Option, none,
  some, [], ◌∷◌, ◌++◌,
}
use gotfr_sec.Prelude.Text.{Text, text_eq, truthy}
use gotfr_sec.Domain.Errors.{ok}
use gotfr_sec.Domain.Models.{
  TokenStatus, active, revoked, unrecognised, IssuedTokenRecord, Time, AuthorizationRequest,
  AuthorizationDecision,
}
use gotfr_sec.Repositories.Interfaces.{RepositoryBundle}
use gotfr_sec.Repositories.Lawful.{Reading, IsLawful}
use gotfr_sec.Exec.{Platform, World, audited, time_of, after_now}
use gotfr_sec.Services.Signer.{TokenSigner}
use gotfr_sec.Services.Runtime.{
  get_public_key_document, allows, authorize, is_active_status, unexpired_at, runtime_event,
  verdict,
}

-- A request for a group, as the runtime route builds it.
abbrev pub asks : Text → Text → Text → AuthorizationRequest
asks token_id owner_sub group = record {
  token_id = token_id;
  owner_sub = some owner_sub;
  requested_group = some group;
  requested_resource = none;
}

-- When a request for a named group is allowed by a record.
abbrev pub Allows : Time → Text → Text → IssuedTokenRecord → Type 0
Allows now sub group t =
    (t.owner_sub ≡ sub)
    × (t.status ≡ active)
    × ((e : Time) → t.expires_at ≡ some e → now < e)
    × (contains group t.granted_groups ≡ true)

active_iff : (s : TokenStatus) → (is_active_status s ≡ true) ↔ (s ≡ active)
active_iff active = (λ h. refl, λ h. refl)
active_iff revoked = (λ h. cc, λ h. cc)
active_iff (unrecognised name) = (λ h. cc, λ h. cc)

unexpired_iff :
    (now : Time) (o : Option Time)
    → (unexpired_at now o ≡ true) ↔ ((e : Time) → o ≡ some e → now < e)
unexpired_iff now none = (λ h e eq. absurd (cc), λ h. refl)
unexpired_iff now (some e) = (
  λ h e' eq. subst (λ x. now < x) (some-injective _ _ eq) (ltb→lt now e h),
  λ h. lt→ltb now e (h e refl),
)

pub allows_iff :
    (now : Time) (id sub group : Text) (t : IssuedTokenRecord)
    → truthy group ≡ true
    → (allows now (asks id sub group) (some t) ≡ true) ↔ Allows now sub group t
unfolding allows
allows_iff now id sub [] t named = (λ h. absurd (cc), λ h. absurd (cc))
allows_iff now id sub (c ∷ group) t named = (
  λ h. (
    (==_iff t.owner_sub sub).0 (ground arith),
    (active_iff t.status).0 (ground arith),
    (unexpired_iff now t.expires_at).0 (ground arith),
    ground arith,
  ),
  λ (owner, status, alive, granted). ground (
    arith,
    (==_iff t.owner_sub sub).1 owner,
    (active_iff t.status).1 status,
    (unexpired_iff now t.expires_at).1 alive,
    granted,
  ),
)

-- When it is allowed by what is stored.
abbrev pub IsAllowed : Time → Text → Text → Text → Option IssuedTokenRecord → Type 0
IsAllowed now id sub group found =
    (t : IssuedTokenRecord) × (found ≡ some t) × Allows now sub group t

allows_some :
    (now : Time) (id sub group : Text) (found : Option IssuedTokenRecord)
    → truthy group ≡ true
    → (allows now (asks id sub group) found ≡ true) ↔ IsAllowed now id sub group found
unfolding allows
allows_some now id sub group none named = (λ h. absurd (cc), λ (t, h, _). absurd (cc))
allows_some now id sub group (some t) named = (
  λ h. (t, refl, (allows_iff now id sub group t named).0 h),
  λ (t', h, allow).
      (allows_iff now id sub group t named).1
        (subst (Allows now sub group) (sym (some-injective _ _ h)) allow),
)

module _ {S : Type 0} (p : Platform) (r : RepositoryBundle S) (reading : Reading S)
    (law : IsLawful reading r) where
  after_now-store : (now : Option Time) (w : World S) → (after_now p now w).store ≡ w.store
  after_now-store none w = refl
  after_now-store (some t) w = refl

  pub authorize_lem :
      (q : AuthorizationRequest) (cid : Option Text) (now : Option Time) (w : World S)
      → reading.IsValid w.store
      → let allowed = allows (time_of p now w) q ((reading.view w.store).token q.token_id) in
        let w' = after_now p now w in
        authorize p r q cid now w ≡ (
          ok (record { allowed = allowed }),
          record w' {
            clock_reads = suc w'.clock_reads;
            audit = w.audit ++ runtime_event q cid (verdict allowed) (p.clock w'.clock_reads) ∷ [];
          },
        )
  unfolding authorize audited
  authorize_lem q cid (some t) w valid = rw (law.token_get w.store valid q.token_id)
  authorize_lem q cid none w valid = rw (law.token_get w.store valid q.token_id)

  pub get_public_key_document_lem :
      (signer : TokenSigner S) (w : World S)
      → (get_public_key_document p r signer w).1
        ≡ record w { store = (signer.public_key_document w.store).1 }
  unfolding get_public_key_document
  get_public_key_document_lem signer w = refl

  -- A request for a named group changes no store, and is allowed exactly if its token is stored, is
  -- owned by the subject of the request, is active, is unexpired at the time of the request, and
  -- was granted the group.
  pub authorize_iff :
      (id sub group : Text) (cid : Option Text) (now : Option Time) (w : World S)
      → reading.IsValid w.store
      → truthy group ≡ true
      → let (result, w') = authorize p r (asks id sub group) cid now w in
        (decision : AuthorizationDecision) × (result ≡ ok decision)
        × (w'.store ≡ w.store)
        × ((decision.allowed ≡ true)
            ↔ IsAllowed (time_of p now w) id sub group ((reading.view w.store).token id))
  authorize_iff id sub group cid now w valid named =
      let found = (reading.view w.store).token id in
      rw (authorize_lem (asks id sub group) cid now w valid) (
        record { allowed = allows (time_of p now w) (asks id sub group) found },
        refl,
        after_now-store now w,
        allows_some (time_of p now w) id sub group found named,
      )
