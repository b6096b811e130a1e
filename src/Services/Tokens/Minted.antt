-- ===== src/Services/Tokens/Minted.antt =====
-- What a minted token is: its owner, its lifetime, and the groups it is granted.
use gotfr_sec.Prelude.{
  ℕ, ◌+◌, ◌≡◌, refl, ap, sym, ◌∙◌, false, Bool-cases, inl, inr, Option, some, List, arith, contains,
  is_some,
}
use gotfr_sec.Prelude.Int.{ℤ, is_nonpositive, to_ℕ}
use gotfr_sec.Prelude.Text.{Text, text_eq, CaseTable}
use gotfr_sec.Domain.Errors.{Result, ok, err}
use gotfr_sec.Domain.Models.{Time, microseconds, IssuedTokenRecord, active}
use gotfr_sec.Domain.Rules.{reserved_admin_group, ensure_runtime_groups_allowed}
use gotfr_sec.Domain.Rules.Runtime.{Normalized, ensure_runtime_groups_allowed_lem}
use gotfr_sec.Repositories.View.{View}
use gotfr_sec.Repositories.Interfaces.{RepositoryBundle}
use gotfr_sec.Repositories.Lawful.{Reading, IsLawful}
use gotfr_sec.Exec.{Platform, World, time_of}
use gotfr_sec.Services.Signer.{TokenSigner}
use gotfr_sec.Services.Tokens.{
  MintedTokenResult, add_seconds, encode_ascii, lifetime_or, mint_token,
}
use gotfr_sec.Services.Tokens.Groups.{IsGrant, validated, validated-eq}
use gotfr_sec.Services.Tokens.Mint.{
  bind_result, new_token, issued, grants_to, IsSigner, mint_token-Ends,
}

-- A token of `owner_sub` for the requested groups: it lives `seconds` from `t`, its groups are the
-- normal forms of the requested ones, each once, all usable, and the reserved group is not one.
pub record IsMinted (wide : CaseTable) (v : View) (owner_sub : Text) (groups : List Text)
    (seconds : ℤ) (t : Time) (token : IssuedTokenRecord) : Type 0 where
  pub owner : token.owner_sub ≡ owner_sub
  pub status : token.status ≡ active
  pub issued_at : token.issued_at ≡ t
  pub expires_at : token.expires_at ≡ some (t + microseconds (to_ℕ seconds))
  pub positive : is_nonpositive seconds ≡ false
  pub names : List Text
  pub normalized : Normalized wide groups names
  pub grant : IsGrant v names token.granted_groups
  pub not_admin : contains reserved_admin_group token.granted_groups ≡ false

pub bind_result-eq-ok :
    {A B : Type 0} (m : Result A) (f : A → Result B) {b : B}
    → bind_result m f ≡ ok b
    → (a : A) × (m ≡ ok a) × (f a ≡ ok b)
bind_result-eq-ok (ok a) f h = (a, refl, h)
bind_result-eq-ok (err e) f h = absurd (cc)

add_seconds-eq :
    (t : Time) (seconds : ℕ) (e : Time)
    → add_seconds t seconds ≡ ok e
    → e ≡ t + microseconds seconds
unfolding add_seconds
add_seconds-eq t seconds e h = ground arith

module _ (p : Platform) (id owner_sub : Text) (granted : List Text) (actor_sub : Text) (t : Time)
    (sign : Time → Result Text) (expiry : Result Time) {m : MintedTokenResult} where
  issued-eq :
      issued p id owner_sub granted actor_sub t sign expiry ≡ ok m
      → (e : Time) × (bytes : Text) × (expiry ≡ ok e)
        × (m.minted ≡ new_token p id owner_sub granted actor_sub t e bytes)
  issued-eq h =
      let (e, he, h₁) = bind_result-eq-ok expiry _ h in
      let (raw, hr, h₂) = bind_result-eq-ok (sign e) _ h₁ in
      let (bytes, hb, h₃) = bind_result-eq-ok (encode_ascii raw) _ h₂ in
      (e, bytes, he, ground (arith, h₃))

grants_to-eq :
    (wide : CaseTable) (v : View) (owner_sub : Text) (groups : List Text) (lifetime : ℤ)
    {granted : List Text}
    → grants_to wide v owner_sub groups lifetime ≡ ok granted
    → (is_nonpositive lifetime ≡ false)
      × (validated v (ensure_runtime_groups_allowed wide groups) ≡ ok granted)
grants_to-eq wide v owner_sub groups lifetime h =
    elim (Bool-cases (is_some (v.profile owner_sub))) [
      | inl known ↦
          let (g, hg, h₁) =
            bind_result-eq-ok (validated v (ensure_runtime_groups_allowed wide groups)) _
              (rw known at h) in
          (ground arith, ground (arith, hg, h₁))
      | inr unknown ↦ absurd (ground (arith, unknown))
    ]

module _ {S : Type 0} (p : Platform) (r : RepositoryBundle S) (reading : Reading S)
    (law : IsLawful reading r) (signer : TokenSigner S) (fair : IsSigner p reading signer)
    (default_lifetime : ℤ) where
  -- The token of a successful `mint_token`: it is active, belongs to the given owner and lives the
  -- asked or the default lifetime, which is positive, from the time of the call; its groups are the
  -- normal forms of the requested ones, each once, all of groups that are there and active, and
  -- the reserved group is not among them.
  pub mint_token-IsMinted :
      (owner_sub : Text) (groups : List Text) (actor_sub : Text) (cid : Option Text)
      (expires_in_seconds : Option ℤ) (now : Option Time) (w : World S) {m : MintedTokenResult}
      → reading.IsValid w.store
      → (mint_token p r signer default_lifetime owner_sub groups actor_sub cid expires_in_seconds
          now w).0
        ≡ ok m
      → IsMinted p.wide
          (reading.view w.store)
          owner_sub
          groups
          (lifetime_or default_lifetime expires_in_seconds)
          (time_of p now w)
          m.minted
  mint_token-IsMinted owner_sub groups actor_sub cid expires_in_seconds now w {m} valid h =
      let v = reading.view w.store in
      let lifetime = lifetime_or default_lifetime expires_in_seconds in
      let t = time_of p now w in
      let ends =
        mint_token-Ends p r reading law signer fair default_lifetime owner_sub groups actor_sub
          expires_in_seconds w valid cid now in
      let (granted, hg, h₁) =
        bind_result-eq-ok (grants_to p.wide v owner_sub groups lifetime) _
          (sym ends.returned ∙ h) in
      let (e, bytes, he, record_eq) = issued-eq p _ owner_sub granted actor_sub t _ _ h₁ in
      let (positive, hv) = grants_to-eq p.wide v owner_sub groups lifetime hg in
      let (ns, hn, grant) = validated-eq v _ hv in
      let (normal, no_admin) = ensure_runtime_groups_allowed_lem p.wide groups hn in
      rw record_eq (record {
        owner = refl;
        status = refl;
        issued_at = refl;
        expires_at = ap some (add_seconds-eq t (to_ℕ lifetime) e he);
        positive = positive;
        names = ns;
        normalized = normal;
        grant = grant;
        not_admin = grant.same reserved_admin_group ∙ no_admin;
      })
