-- ===== src/Services/Signing.antt =====
-- app/services/token_service.py: `StaticTokenSigner`, `VaultTokenSigner` and `build_token_signer`,
-- over PyJWT and cryptography.
pub mod Base64
pub mod Vault
pub mod Published
use gotfr_sec.Prelude.{
  ℕ, zero, suc, ◌-◌, ◌/◌, Bool, true, false, Option, none, some, List, [], ◌∷◌, leb, if◌then◌else◌,
}
use gotfr_sec.Prelude.Int.{ℤ, pos, negsuc}
use gotfr_sec.Prelude.Text.{Text, text, truthy, strip, or_else}
use gotfr_sec.Domain.Errors.{Result, ok, err, signing_key_unavailable}
use gotfr_sec.Domain.Models.{Time}
use gotfr_sec.Repositories.Interfaces.{Call}
use gotfr_sec.Repositories.Calls.{done, raising, ◌>>=◌, ◌>>◌}
use gotfr_sec.Repositories.Json.{Json, str, Fields, get}
use gotfr_sec.Repositories.VaultPaths.{signing_key_path}
use gotfr_sec.Repositories.Vault.Client.{VaultClient}
use gotfr_sec.Settings.{SigningSettings}
use gotfr_sec.Services.Signer.{Jwk, TokenSigner}
use gotfr_sec.Services.Tokens.{encode_ascii}
use gotfr_sec.Services.Signing.Base64.{b64url_uint}

-- The claims of a token, in the order of their insertion; `exp` is left out where it is missing.
pub record Claims : Type 0 where
  pub jti : Text
  pub sub : Text
  pub iss : Text
  pub iat : ℤ
  pub nbf : ℤ
  pub exp : Option ℤ

-- `public_pem` loads a private key from its PEM text and writes the PEM text of its public key;
-- `rsa_numbers` loads a public key and has the numbers `n` and `e` of one for RSA; `encode_jwt` is
-- `jwt.encode` of claims with a key, an algorithm and the `kid` of the headers.
pub record Crypto : Type 0 where
  pub public_pem : Text → Result Text
  pub rsa_numbers : Text → Result (Option (ℕ × ℕ))
  pub encode_jwt : Claims → Text → Text → Option Text → Result Text
  pub sha256_hex : Text → Text

-- 1970-01-01 in microseconds since the first instant of a `datetime`.
abbrev epoch : Time
epoch = 62135596800000000

abbrev negated : ℕ → ℤ
negated zero = pos 0
negated (suc n) = negsuc n

-- `int(t.timestamp())`. Python computes it with a float, which is exact to the second until the
-- year 2514.
abbrev pub int_timestamp : Time → ℤ
int_timestamp t =
    if leb epoch t then pos ((t - epoch) / 1000000) else negated ((epoch - t) / 1000000)

abbrev pub timestamps : Option Time → Option ℤ
timestamps none = none
timestamps (some t) = some (int_timestamp t)

abbrev pub claims_of : Text → Text → Text → Time → Option Time → Claims
claims_of issuer token_id owner_sub issued_at expires_at = record {
  jti = token_id;
  sub = owner_sub;
  iss = issuer;
  iat = int_timestamp issued_at;
  nbf = int_timestamp issued_at;
  exp = timestamps expires_at;
}

-- `{"kid": kid} if kid else None`.
abbrev pub header : Text → Option Text
header kid = if truthy kid then some kid else none

-- `s[:n]`.
abbrev take : ℕ → Text → Text
take n [] = []
take zero (c ∷ s) = []
take (suc n) (c ∷ s) = c ∷ take n s

pub record LoadedSigningMaterial : Type 0 where
  pub private_key_pem : Text
  pub public_key_pem : Text
  pub kid : Text

module _ {A B : Type 0} where
  abbrev pub and_then : Result A → (A → Result B) → Result B
  and_then (ok a) next = next a
  and_then (err e) next = err e

module _ (crypto : Crypto) where
  unfoldable pub derive_kid : Text → Result Text
  derive_kid public_key_pem =
      and_then (encode_ascii public_key_pem) λ encoded. ok (take 16 (crypto.sha256_hex encoded))

  abbrev pub jwk_of : Text → Text → Option (ℕ × ℕ) → Result Jwk
  jwk_of kid algorithm none = err signing_key_unavailable
  jwk_of kid algorithm (some (n, e)) = ok (record {
    kid = kid;
    kty = text "RSA";
    alg = algorithm;
    usage = text "sig";
    n = b64url_uint n;
    e = b64url_uint e;
  })

  unfoldable pub public_key_to_jwk : Text → Text → Text → Result Jwk
  public_key_to_jwk public_key_pem kid algorithm =
      and_then (encode_ascii public_key_pem)
        λ encoded. and_then (crypto.rsa_numbers encoded) λ numbers. jwk_of kid algorithm numbers

  -- `key_id or _derive_kid(public_key_pem)`.
  abbrev key_id_or : Option Text → Text → Result Text
  key_id_or none public_key_pem = derive_kid public_key_pem
  key_id_or (some key_id) public_key_pem =
      if truthy key_id then ok key_id else derive_kid public_key_pem

  -- The keys of `StaticTokenSigner`, from a private key as a text.
  unfoldable pub static_material : Text → Option Text → Result LoadedSigningMaterial
  static_material private_key_pem key_id = and_then (encode_ascii private_key_pem) λ encoded.
      and_then (crypto.public_pem encoded) λ public_key_pem.
        and_then (key_id_or key_id public_key_pem) λ kid.
          ok (record {
            private_key_pem = private_key_pem;
            public_key_pem = public_key_pem;
            kid = kid;
          })

  module _ (algorithm issuer : Text) where
    -- `jwt.encode` of the claims with loaded keys.
    abbrev pub encode_with : LoadedSigningMaterial → Text → Text → Time → Option Time → Result Text
    encode_with material token_id owner_sub issued_at expires_at =
        crypto.encode_jwt (claims_of issuer token_id owner_sub issued_at expires_at)
          material.private_key_pem algorithm (header material.kid)

    abbrev pub document_of : LoadedSigningMaterial → Result (List Jwk)
    document_of material =
        and_then (public_key_to_jwk material.public_key_pem material.kid algorithm)
          λ jwk. ok (jwk ∷ [])

    -- StaticTokenSigner, with its keys loaded.
    abbrev pub static_signer : {S : Type 0} → LoadedSigningMaterial → TokenSigner S
    static_signer material = record {
      sign_token = λ token_id owner_sub issued_at expires_at.
          raising (encode_with material token_id owner_sub issued_at expires_at);
      public_key_pem = done material.public_key_pem;
      public_key_document = raising (document_of material);
    }

  -- `key_id if isinstance(key_id, str) and key_id.strip() else _derive_kid(public_key_pem)`.
  abbrev pub stored_kid : Json → Text → Result Text
  stored_kid (str key_id) public_key_pem =
      if truthy (strip key_id) then ok key_id else derive_kid public_key_pem
  stored_kid value public_key_pem = derive_kid public_key_pem

  abbrev pub private_key : Json → Result Text
  private_key (str pem) = if truthy (strip pem) then ok pem else err signing_key_unavailable
  private_key value = err signing_key_unavailable

  -- What a secret says of the keys.
  unfoldable pub material_in : Option Fields → Result LoadedSigningMaterial
  material_in none = err signing_key_unavailable
  material_in (some secret) =
      and_then (private_key (get (text "private_key_pem") secret)) λ private_key_pem.
        and_then (encode_ascii private_key_pem) λ encoded.
          and_then (crypto.public_pem encoded) λ public_key_pem.
            and_then (stored_kid (get (text "kid") secret) public_key_pem) λ kid. ok (record {
              private_key_pem = private_key_pem;
              public_key_pem = public_key_pem;
              kid = kid;
            })

  module _ {S : Type 0} (c : VaultClient S) (vault_path : Text) where
    -- `_load_signing_material`.
    unfoldable pub load_signing_material : Call S LoadedSigningMaterial
    load_signing_material = do secret ← c.read_secret vault_path; raising (material_in secret)

    module _ (algorithm issuer : Text) where
      -- VaultTokenSigner.
      abbrev pub vault_signer : TokenSigner S
      vault_signer = record {
        sign_token = λ token_id owner_sub issued_at expires_at. (do
          material ← load_signing_material
          raising (encode_with algorithm issuer material token_id owner_sub issued_at expires_at));
        public_key_pem = (do material ← load_signing_material; done material.public_key_pem);
        public_key_document = (do
          material ← load_signing_material
          raising (document_of algorithm issuer material));
      }

  abbrev signing_path : Text → Option Text → Text
  signing_path default none = default
  signing_path default (some path) = if truthy path then path else default

  abbrev pub build_token_signer :
      {S : Type 0} → Option (VaultClient S) → Text → SigningSettings → Option (TokenSigner S)
  build_token_signer none path_prefix settings = none
  build_token_signer (some c) path_prefix settings = some (
      vault_signer c (signing_path (signing_key_path path_prefix) settings.vault_path)
        settings.algorithm settings.issuer)
