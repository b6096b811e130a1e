-- ===== src/Services/Lifecycle.antt =====
-- Calls of app/services/token_service.py followed by calls of app/services/runtime_service.py: what
-- a request is answered for a token that was just minted, and for one that was just revoked.
use gotfr_sec.Prelude.{
  ◌+◌, ◌<◌, ◌≡◌, refl, sym, ap, subst, ◌∙◌, ◌↔◌, true, false, inl, inr, Bool-cases, Option, none,
  some, List, arith, contains, ==_refl,
}
use mathlib.Core.Option.{some-injective}
use gotfr_sec.Prelude.Int.{ℤ, to_ℕ}
use gotfr_sec.Prelude.Text.{Text, text_eq, truthy, CaseTable}
use gotfr_sec.Domain.Errors.{Result, ok}
use gotfr_sec.Domain.Models.{
  Time, microseconds, IssuedTokenRecord, TokenStatus, active, revoked, unrecognised,
  AuthorizationRequest, AuthorizationDecision,
}
use gotfr_sec.Domain.Rules.{reserved_admin_group}
use gotfr_sec.Repositories.View.{View, with_token}
use gotfr_sec.Repositories.Interfaces.{RepositoryBundle}
use gotfr_sec.Repositories.Lawful.{Reading, IsLawful}
use gotfr_sec.Exec.{Platform, World, time_of}
use gotfr_sec.Services.Contract.{map_result}
use gotfr_sec.Services.Signer.{TokenSigner}
use gotfr_sec.Services.Tokens.{
  MintedTokenResult, is_revoked, found_token, lifetime_or, mint_token, revoke_token,
}
use gotfr_sec.Services.Tokens.Mint.{IsSigner, minted_view, mint_token-Ends}
use gotfr_sec.Services.Tokens.Minted.{IsMinted, mint_token-IsMinted}
use gotfr_sec.Services.Tokens.Revoke.{revoked_record, revoked_view, revoke_token-Ends}
use gotfr_sec.Services.Runtime.{allows, authorize, is_active_status}
use gotfr_sec.Services.Runtime.Decision.{asks, IsAllowed, authorize_lem, authorize_iff}

found_token-ok :
    (at : Time) (id : Text) (o : Option IssuedTokenRecord) {t : IssuedTokenRecord}
    → map_result (revoked_record at) (found_token id o) ≡ ok t
    → (u : IssuedTokenRecord) × (o ≡ some u)
found_token-ok at id none h = absurd (cc)
found_token-ok at id (some u) h = (u, refl)

inactive : (s : TokenStatus) → is_revoked s ≡ true → is_active_status s ≡ false
inactive active h = absurd (cc)
inactive revoked h = refl
inactive (unrecognised name) h = refl

allows-revoked :
    (now : Time) (q : AuthorizationRequest) (t : IssuedTokenRecord)
    → is_revoked t.status ≡ true
    → allows now q (some t) ≡ false
unfolding allows
allows-revoked now q t old = ground (arith, inactive t.status old)

with_token-token : (t : IssuedTokenRecord) (v : View) → (with_token t v).token t.token_id ≡ some t
with_token-token t v = rw (==_refl t.token_id) refl

-- The view of a revocation of the record under an id holds a revoked record there.
revoked_view-token :
    (now : Time) (v : View) (id : Text) (t : IssuedTokenRecord)
    → t.token_id ≡ id
    → v.token id ≡ some t
    → (u : IssuedTokenRecord) × ((revoked_view now (v.token id) v).token id ≡ some u)
      × (is_revoked u.status ≡ true)
revoked_view-token now v id t key found = elim (Bool-cases (is_revoked t.status)) [
  | inl old ↦ (t, rw (found, old) found, old)
  | inr new ↦ (
    record t { status = revoked; revoked_at = some now },
    rw (found, new, key, ==_refl id) refl,
    refl,
  )
]

-- What is allowed of a new token.
minted-IsAllowed :
    {wide : CaseTable} {v : View} {owner_sub : Text} {groups : List Text} {seconds : ℤ} {t : Time}
    {token : IssuedTokenRecord} {found : Option IssuedTokenRecord} (now : Time)
    (id sub group : Text)
    → IsMinted wide v owner_sub groups seconds t token
    → found ≡ some token
    → IsAllowed now id sub group found ↔ (
        (owner_sub ≡ sub)
        × (now < t + microseconds (to_ℕ seconds))
        × (contains group token.granted_groups ≡ true))
minted-IsAllowed {token = token} now id sub group minted found = (
  λ (t', h, allow).
      let same = some-injective _ _ (sym found ∙ h) in
      let (owner, _, alive, granted) = allow in
      (
        sym minted.owner ∙ ap (λ t. t.owner_sub) same ∙ owner,
        alive _ (ap (λ t. t.expires_at) (sym same) ∙ minted.expires_at),
        ap (λ t. contains group t.granted_groups) same ∙ granted,
      ),
  λ (owner, alive, granted). (
    token,
    found,
    (
      minted.owner ∙ owner,
      minted.status,
      λ e h. subst (λ x. now < x) (some-injective _ _ (sym minted.expires_at ∙ h)) alive,
      granted,
    ),
  ),
)

module _ {S : Type 0} (p : Platform) (r : RepositoryBundle S) (reading : Reading S)
    (law : IsLawful reading r) where
  -- After a `revoke_token` that returned a record, each request with that token id is denied, at
  -- whatever time it is made.
  pub authorize-revoke_token :
      (q : AuthorizationRequest) (actor_sub : Text) (cid cid' : Option Text)
      (now now' : Option Time) (w : World S) {t : IssuedTokenRecord}
      → reading.IsValid w.store
      → (revoke_token p r q.token_id actor_sub cid now w).0 ≡ ok t
      → (authorize p r q cid' now' (revoke_token p r q.token_id actor_sub cid now w).1).0
        ≡ ok (record { allowed = false })
  authorize-revoke_token q actor_sub cid cid' now now' w {t} valid h =
      let v = reading.view w.store in
      let ends = revoke_token-Ends p r reading law q.token_id actor_sub cid now w valid in
      let (u, found) =
        found_token-ok (time_of p now w) q.token_id (v.token q.token_id) (sym ends.returned ∙ h) in
      let key = (law.token_key w.store valid q.token_id u found).0 in
      let (u', found', old) = revoked_view-token (time_of p now w) v q.token_id u key found in
      let w' = (revoke_token p r q.token_id actor_sub cid now w).1 in
      let at' = time_of p now' w' in
      ap (λ c. c.0) (authorize_lem p r reading law q cid' now' w' ends.valid)
      ∙ ap (λ o. ok (record { allowed = allows at' q o }))
          (ap (λ v. v.token q.token_id) ends.seen ∙ found')
      ∙ ap (λ b. ok (record { allowed = b })) (allows-revoked at' q u' old)

  module _ (signer : TokenSigner S) (fair : IsSigner p reading signer) (default_lifetime : ℤ) where
    module _ (owner_sub : Text) (groups : List Text) (actor_sub : Text) (cid cid' : Option Text)
        (expires_in_seconds : Option ℤ) (now now' : Option Time) (w : World S) where
      abbrev minting : Result MintedTokenResult × World S
      minting =
          mint_token p r signer default_lifetime owner_sub groups actor_sub cid expires_in_seconds
            now w

      abbrev lifetime : ℤ
      lifetime = lifetime_or default_lifetime expires_in_seconds

      mint_token-found :
          {m : MintedTokenResult}
          → reading.IsValid w.store
          → minting.0 ≡ ok m
          → (reading.view minting.1.store).token m.minted.token_id ≡ some m.minted
      mint_token-found {m} valid h =
          let ends =
            mint_token-Ends p r reading law signer fair default_lifetime owner_sub groups actor_sub
              expires_in_seconds w valid cid now in
          let v = reading.view w.store in
          let seen = ends.seen ∙ ap (λ result. minted_view result v) (sym ends.returned ∙ h) in
          ap (λ v. v.token m.minted.token_id) seen ∙ with_token-token m.minted v

      -- After a `mint_token` that returned a token, a request for that token and a named group is
      -- allowed exactly if it names the token's owner, is made before the lifetime has passed
      -- since the time of the call, and the group is one that the token was granted.
      pub authorize-mint_token :
          (sub group : Text) (m : MintedTokenResult)
          → reading.IsValid w.store
          → truthy group ≡ true
          → minting.0 ≡ ok m
          → (decision : AuthorizationDecision) × ((authorize p r
                (asks m.minted.token_id sub group)
                cid'
                now'
                minting.1).0
              ≡ ok decision)
            × ((decision.allowed ≡ true) ↔ (
                (owner_sub ≡ sub)
                × (time_of p now' minting.1 < time_of p now w + microseconds (to_ℕ lifetime))
                × (contains group m.minted.granted_groups ≡ true)))
      authorize-mint_token sub group m valid named h =
          let ends =
            mint_token-Ends p r reading law signer fair default_lifetime owner_sub groups actor_sub
              expires_in_seconds w valid cid now in
          let minted =
            mint_token-IsMinted p r reading law signer fair default_lifetime owner_sub groups
              actor_sub cid expires_in_seconds now w valid h in
          let (decision, returned, _, iff) =
            authorize_iff p r reading law m.minted.token_id sub group cid' now' minting.1 ends.valid
              named in
          let same =
            minted-IsAllowed (time_of p now' minting.1) m.minted.token_id sub group minted
              (mint_token-found valid h) in
          (decision, returned, (λ a. same.0 (iff.0 a), λ a. iff.1 (same.1 a)))

      -- After a `mint_token` that returned a token, each request for that token and the reserved
      -- admin group is denied.
      pub authorize-mint_token_admin :
          (sub : Text) (m : MintedTokenResult)
          → reading.IsValid w.store
          → minting.0 ≡ ok m
          → (authorize p r (asks m.minted.token_id sub reserved_admin_group) cid' now' minting.1).0
            ≡ ok (record { allowed = false })
      authorize-mint_token_admin sub m valid h =
          let minted =
            mint_token-IsMinted p r reading law signer fair default_lifetime owner_sub groups
              actor_sub cid expires_in_seconds now w valid h in
          let (decision, returned, iff) =
            authorize-mint_token sub reserved_admin_group m valid refl h in
          elim (Bool-cases decision.allowed) [
            | inl allowed ↦
                let (_, _, granted) = iff.0 allowed in
                absurd (ground (arith, granted, minted.not_admin))
            | inr denied ↦ returned ∙ ap (λ b. ok (record { allowed = b })) denied
          ]
