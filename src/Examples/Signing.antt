-- ===== src/Examples/Signing.antt =====
-- A signer over a Vault in memory that holds a key, and an RSA exponent as text.
use gotfr_sec.Prelude.{◌≡◌, refl, All, true, some, Option, [], ◌∷◌, list_beq}
use gotfr_sec.Prelude.Text.{Text, text, text_eq, strip, is_ascii}
use gotfr_sec.Domain.Errors.{ok}
use gotfr_sec.Domain.Models.{Time}
use gotfr_sec.Exec.{Platform}
use gotfr_sec.Repositories.Dict.{lookup}
use gotfr_sec.Repositories.Json.{Fields, str, end, field, entry, get}
use gotfr_sec.Repositories.Vault.Represents.{IsVaultTokenId}
use gotfr_sec.Services.Signer.{Jwk}
use gotfr_sec.Services.Tokens.{encode_ascii}
use gotfr_sec.Services.Signing.{
  Crypto, claims_of, header, public_key_to_jwk, material_in, load_signing_material, vault_signer,
}
use gotfr_sec.Services.Signing.Base64.{
  bytes_below, to_bytes, letter, urlsafe_b64encode, b64url_uint,
}
use gotfr_sec.Services.Signing.Base64.Decode.{from_bytes, decoded, is_urlsafe, b64url_uint_lem}
use gotfr_sec.Services.Signing.Published.{Publishes}
use gotfr_sec.Services.Signing.Vault.{public_key_document-sign_token}
use gotfr_sec.Examples.Sample.{platform}
use gotfr_sec.Examples.MemoryVault.{MemoryVault, memory_client, memory_client-IsVault}

exponent : b64url_uint 65537 ≡ text "AQAB"
unfolding b64url_uint to_bytes bytes_below urlsafe_b64encode letter
exponent = refl

b64url_uint_lem_example :
    (from_bytes 0 (decoded (b64url_uint 65537)) ≡ 65537)
    × All (λ c. is_urlsafe c ≡ true) (b64url_uint 65537)
b64url_uint_lem_example = b64url_uint_lem 65537

-- Keys that are their own public keys.
abbrev crypto : Crypto
crypto = record {
  public_pem = λ pem. ok pem;
  rsa_numbers = λ pem. ok (some (3233, 17));
  encode_jwt = λ claims key algorithm kid. ok claims.jti;
  sha256_hex = platform.sha256_hex;
}

abbrev key_path : Text
key_path = text "gofr/sec/signing/runtime"

abbrev secrets : MemoryVault
secrets =
    (
      key_path,
      field (text "private_key_pem") (str (text "KEY")) (field (text "kid") (str (text "k1")) end),
    )
    ∷ []

abbrev published : Jwk
published = record {
  kid = text "k1";
  kty = text "RSA";
  alg = text "RS256";
  usage = text "sig";
  n = text "DKE";
  e = text "EQ";
}

key_published :
    ((vault_signer crypto memory_client key_path
        (text "RS256")
        (text "gofr-sec")).public_key_document
      secrets).0
    ≡ ok (published ∷ [])
unfolding load_signing_material material_in get entry encode_ascii is_ascii strip public_key_to_jwk
    b64url_uint to_bytes bytes_below urlsafe_b64encode letter lookup list_beq
key_published = refl

public_key_document-sign_token_example :
    (secret : Fields) × (memory_client-IsVault.secrets secrets key_path ≡ some secret)
    × (shown : Publishes crypto secret (text "RS256") (published ∷ [])) × ((token_id
            owner_sub : Text)
          (issued_at : Time) (expires_at : Option Time)
        → (vault_signer crypto memory_client key_path (text "RS256") (text "gofr-sec")).sign_token
            token_id owner_sub issued_at expires_at secrets
          ≡ (
            crypto.encode_jwt
                (claims_of (text "gofr-sec") token_id owner_sub issued_at expires_at)
                shown.pem
                (text "RS256")
                (header shown.jwk.kid),
            secrets,
          ))
public_key_document-sign_token_example =
    public_key_document-sign_token crypto memory_client memory_client-IsVault key_path
      (text "RS256") (text "gofr-sec") secrets (published ∷ []) key_published

-- A platform whose `uuid4` always has the same digits.
abbrev pub hex_platform : Platform
hex_platform = record platform { uuid_hex = λ n. text "f0" }

pub f0-IsVaultTokenId : IsVaultTokenId (text "f0")
unfolding list_beq
f0-IsVaultTokenId = record {
  segment = (refl, (refl, tt));
  given = refl;
  not_profile = refl;
  not_groups = refl;
  not_definition = refl;
}
