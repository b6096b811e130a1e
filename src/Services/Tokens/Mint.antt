-- ===== src/Services/Tokens/Mint.antt =====
-- `mint_token`: its refusals, and the record that it stores.
use gotfr_sec.Prelude.{
  ℕ, ◌≡◌, refl, true, false, not, Bool-cases, Option-cases, arith, Option, none, some, List, inl,
  inr, is_some, if◌then◌else◌,
}
use gotfr_sec.Prelude.Int.{ℤ, is_nonpositive, to_ℕ}
use gotfr_sec.Prelude.Text.{Text, CaseTable}
use gotfr_sec.Domain.Errors.{Result, ok, err, unregistered_user, value_error}
use gotfr_sec.Domain.Models.{Time, IssuedTokenRecord, active}
use gotfr_sec.Domain.Rules.{ensure_runtime_groups_allowed}
use gotfr_sec.Repositories.View.{View, with_token}
use gotfr_sec.Repositories.Interfaces.{RepositoryBundle}
use gotfr_sec.Repositories.Lawful.{Reading, IsLawful, Yields-eq}
use gotfr_sec.Exec.{Platform, World, time_of, after_now}
use gotfr_sec.Services.Contract.{Ends, Ends-same, Ends-audited}
use gotfr_sec.Services.Signer.{TokenSigner}
use gotfr_sec.Services.Tokens.{
  MintedTokenResult, add_seconds, encode_ascii, lifetime_or, issue, mint_body, mint_token,
}
use gotfr_sec.Services.Tokens.Groups.{validated, validate_groups_lem}

abbrev pub bind_result : {A B : Type 0} → Result A → (A → Result B) → Result B
bind_result (ok a) f = f a
bind_result (err e) f = err e

-- The record of a new token; `encoded` is the text of the token as bytes.
abbrev pub new_token :
    Platform → Text → Text → List Text → Text → Time → Time → Text → IssuedTokenRecord
new_token p id owner_sub granted actor_sub issued_at expires_at encoded = record {
  token_id = id;
  owner_sub = owner_sub;
  granted_groups = granted;
  status = active;
  issued_at = issued_at;
  expires_at = some expires_at;
  issued_by_sub = some actor_sub;
  jwt_hash = some (p.sha256_hex encoded);
  pending_reveal = false;
  revoked_at = none;
}

-- The stages of the second half, for a token's id, owner, groups, issuer and time of issue.
module _ (p : Platform) (id owner_sub : Text) (granted : List Text) (actor_sub : Text)
    (t : Time) where
  abbrev pub encoded_as : Time → Text → Result Text → Result MintedTokenResult
  encoded_as expires_at raw encoded = bind_result encoded λ bytes. ok (record {
    minted = new_token p id owner_sub granted actor_sub t expires_at bytes;
    raw_token = raw;
  })

  abbrev pub signed_as : Time → Result Text → Result MintedTokenResult
  signed_as expires_at signed =
      bind_result signed λ raw. encoded_as expires_at raw (encode_ascii raw)

  -- `sign` is what the signer returns for a time of expiry.
  abbrev pub issued : (Time → Result Text) → Result Time → Result MintedTokenResult
  issued sign expiry = bind_result expiry λ expires_at. signed_as expires_at (sign expires_at)

-- The order of the checks before: a registered owner, grantable groups, a positive lifetime.
abbrev pub grants_to : CaseTable → View → Text → List Text → ℤ → Result (List Text)
grants_to wide v owner_sub groups lifetime =
    if not (is_some (v.profile owner_sub))
    then err (unregistered_user owner_sub)
    else bind_result (validated v (ensure_runtime_groups_allowed wide groups))
        λ granted. if is_nonpositive lifetime then err value_error else ok granted

abbrev pub minted_view : Result MintedTokenResult → View → View
minted_view (err e) v = v
minted_view (ok m) v = with_token m.minted v

-- Signing leaves the stores alone, and a new id may name a token.
pub record IsSigner {S : Type 0} (p : Platform) (reading : Reading S) (signer : TokenSigner S)
    : Type 0 where
  pub reads_only :
      (id owner_sub : Text) (issued_at : Time) (expires_at : Option Time) (s : S)
      → (signer.sign_token id owner_sub issued_at expires_at s).1 ≡ s
  pub id_fits : (n : ℕ) → reading.IsTokenId (p.uuid_hex n)

module _ {S : Type 0} (p : Platform) (r : RepositoryBundle S) (reading : Reading S)
    (law : IsLawful reading r) (signer : TokenSigner S) (fair : IsSigner p reading signer)
    (default_lifetime : ℤ) where
  abbrev pub signs : Text → Text → Time → S → Time → Result Text
  signs id owner_sub t s expires_at = (signer.sign_token id owner_sub t (some expires_at) s).0

  sign-eq :
      (id owner_sub : Text) (t expires_at : Time) (s : S)
      → signer.sign_token id owner_sub t (some expires_at) s
        ≡ (signs id owner_sub t s expires_at, s)
  sign-eq id owner_sub t expires_at s =
      λ i. (signs id owner_sub t s expires_at, fair.reads_only id owner_sub t (some expires_at) s i)

  module _ (owner_sub : Text) (granted : List Text) (actor_sub : Text) (seconds : ℕ) (t : Time)
      (w : World S) (valid : reading.IsValid w.store) (usable : reading.IsSubject owner_sub) where
    abbrev id : Text
    id = p.uuid_hex w.uuids_drawn

    abbrev IssueEnds : Result MintedTokenResult → Type 0
    IssueEnds result =
        Ends reading (issue p r signer default_lifetime owner_sub granted actor_sub seconds t w)
          result (minted_view result (reading.view w.store))

    encode-Ends :
        (e : Time) (raw : Text)
        → add_seconds t seconds ≡ ok e
        → signs id owner_sub t w.store e ≡ ok raw
        → (o : Result Text) → encode_ascii raw ≡ o
        → IssueEnds (encoded_as p id owner_sub granted actor_sub t e raw o)
    unfolding issue
    encode-Ends e raw added signed (err x) h =
        rw (added, sign-eq id owner_sub t e w.store, signed, h)
          (record { returned = refl; valid = valid; seen = refl })
    encode-Ends e raw added signed (ok encoded) h =
        let t' = new_token p id owner_sub granted actor_sub t e encoded in
        let y = law.token_upsert w.store valid t' (fair.id_fits w.uuids_drawn) usable tt in
        rw (added, sign-eq id owner_sub t e w.store, signed, h, Yields-eq reading y)
          (record { returned = refl; valid = y.valid; seen = y.seen })

    sign-Ends :
        (e : Time)
        → add_seconds t seconds ≡ ok e
        → (o : Result Text) → signs id owner_sub t w.store e ≡ o
        → IssueEnds (signed_as p id owner_sub granted actor_sub t e o)
    unfolding issue
    sign-Ends e added (err x) h =
        rw (added, sign-eq id owner_sub t e w.store, h)
          (record { returned = refl; valid = valid; seen = refl })
    sign-Ends e added (ok raw) h = encode-Ends e raw added h (encode_ascii raw) refl

    issue-Ends :
        (o : Result Time)
        → add_seconds t seconds ≡ o
        → IssueEnds (issued p id owner_sub granted actor_sub t (signs id owner_sub t w.store) o)
    unfolding issue
    issue-Ends (err x) h = rw h (record { returned = refl; valid = valid; seen = refl })
    issue-Ends (ok e) h = sign-Ends e h (signs id owner_sub t w.store e) refl

  module _ (owner_sub : Text) (groups : List Text) (actor_sub : Text)
      (expires_in_seconds : Option ℤ) (w : World S) (valid : reading.IsValid w.store) where
    abbrev v : View
    v = reading.view w.store

    abbrev lifetime : ℤ
    lifetime = lifetime_or default_lifetime expires_in_seconds

    -- What the call returns, from what the checks before returned.
    abbrev pub minted_for : Option Time → Result (List Text) → Result MintedTokenResult
    minted_for now o = bind_result o λ granted.
        let t = time_of p now w in
        let id = p.uuid_hex w.uuids_drawn in
        issued p id owner_sub granted actor_sub t (signs id owner_sub t w.store)
          (add_seconds t (to_ℕ lifetime))

    abbrev MintEnds : Option Time → Result MintedTokenResult → Type 0
    MintEnds now result =
        Ends reading
          (mint_body p r signer default_lifetime owner_sub groups actor_sub expires_in_seconds now
            w)
          result (minted_view result v)

    subject_of : is_some (v.profile owner_sub) ≡ true → reading.IsSubject owner_sub
    subject_of known = elim (Option-cases (v.profile owner_sub)) [
      | inl missing ↦ absurd (ground (arith, missing, known))
      | inr (profile, there) ↦ law.profile_subject w.store valid owner_sub profile there
    ]

    granted-Ends :
        is_some (v.profile owner_sub) ≡ true
        → is_nonpositive lifetime ≡ false
        → (granted : List Text)
        → validated v (ensure_runtime_groups_allowed p.wide groups) ≡ ok granted
        → (now : Option Time) → MintEnds now (minted_for now (ok granted))
    unfolding mint_body
    granted-Ends known positive granted h none =
        rw
          (
            law.profile_is_registered w.store valid owner_sub,
            known,
            validate_groups_lem p r reading law groups w valid,
            h,
            positive,
          )
          (issue-Ends owner_sub granted actor_sub (to_ℕ lifetime) (p.clock w.clock_reads)
            (after_now p none w) valid (subject_of known) _ refl)
    granted-Ends known positive granted h (some t) =
        rw
          (
            law.profile_is_registered w.store valid owner_sub,
            known,
            validate_groups_lem p r reading law groups w valid,
            h,
            positive,
          )
          (issue-Ends owner_sub granted actor_sub (to_ℕ lifetime) t w valid (subject_of known) _
            refl)

    refused-Ends :
        (now : Option Time)
        → is_some (v.profile owner_sub) ≡ true
        → (o : Result (List Text)) → validated v (ensure_runtime_groups_allowed p.wide groups) ≡ o
        → MintEnds now (
            minted_for now (
              bind_result o
                λ granted. if is_nonpositive lifetime then err value_error else ok granted))
    refused-Ends now known (err e) h =
        unfold mint_body in
        rw
          (
            law.profile_is_registered w.store valid owner_sub,
            known,
            validate_groups_lem p r reading law groups w valid,
            h,
          )
          (Ends-same reading _ (err e) w refl valid)
    refused-Ends now known (ok granted) h = elim (Bool-cases (is_nonpositive lifetime)) [
      | inl bad ↦
          unfold mint_body in
          rw
            (
              law.profile_is_registered w.store valid owner_sub,
              known,
              validate_groups_lem p r reading law groups w valid,
              h,
              bad,
            )
            (Ends-same reading _ (err value_error) w refl valid)
      | inr positive ↦ rw positive (granted-Ends known positive granted h now)
    ]

    mint_body-Ends :
        (now : Option Time)
        → MintEnds now (minted_for now (grants_to p.wide v owner_sub groups lifetime))
    mint_body-Ends now = elim (Bool-cases (is_some (v.profile owner_sub))) [
      | inl known ↦ rw known (refused-Ends now known _ refl)
      | inr unknown ↦
          unfold mint_body in
          rw (law.profile_is_registered w.store valid owner_sub, unknown)
            (Ends-same reading _ (err (unregistered_user owner_sub)) w refl valid)
    ]

    -- `mint_token` refuses, in this order and changing no store, an unregistered owner, groups that
    -- may not be granted, a lifetime that is not positive, an expiry behind the year 9999, a signer
    -- that raises and a signed text outside ASCII; else it stores and returns the one new active
    -- record, which expires the lifetime after its issue, with the text that the signer returned.
    pub mint_token-Ends :
        (cid : Option Text) (now : Option Time)
        → let result = minted_for now (grants_to p.wide v owner_sub groups lifetime) in
          Ends reading
            (mint_token p r signer default_lifetime owner_sub groups actor_sub cid
              expires_in_seconds now w)
            result
            (minted_view result v)
    unfolding mint_token
    mint_token-Ends cid now = Ends-audited reading p _ _ _ w (mint_body-Ends now)
