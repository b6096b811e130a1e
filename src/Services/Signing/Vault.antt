-- ===== src/Services/Signing/Vault.antt =====
-- `VaultTokenSigner` over a Vault: what it reads, and that the stores over the same Vault may mint
-- with it.
use gotfr_sec.Prelude.{ℕ, ◌≡◌, refl, ◌⊎◌, inl, inr, Option, none, some, List}
use gotfr_sec.Prelude.Text.{Text}
use gotfr_sec.Domain.Errors.{Error, Result, ok, err}
use gotfr_sec.Domain.Models.{Time}
use gotfr_sec.Repositories.Vault.Client.{VaultClient, Formats, IsIso}
use gotfr_sec.Repositories.Vault.Contract.{IsVault}
use gotfr_sec.Repositories.Vault.Represents.{IsVaultTokenId}
use gotfr_sec.Repositories.Vault.Lawful.{vault_reading}
use gotfr_sec.Exec.{Platform}
use gotfr_sec.Services.Signer.{Jwk}
use gotfr_sec.Services.Tokens.Mint.{IsSigner}
use gotfr_sec.Repositories.Json.{Fields}
use gotfr_sec.Services.Signing.Published.{Publishes, document_of-Publishes}
use gotfr_sec.Services.Signing.{
  Crypto, claims_of, header, LoadedSigningMaterial, material_in, load_signing_material,
  vault_signer,
}

Result-cases : {A : Type 0} (r : Result A) → ((a : A) × (r ≡ ok a)) ⊎ ((e : Error) × (r ≡ err e))
Result-cases (ok a) = inl (a, refl)
Result-cases (err e) = inr (e, refl)

module _ (crypto : Crypto) where
  module _ {S : Type 0} (c : VaultClient S) (is_vault : IsVault c)
      (vault_path algorithm issuer : Text) where
    load_signing_material_lem :
        (s : S)
        → load_signing_material crypto c vault_path s
          ≡ (material_in crypto (is_vault.secrets s vault_path), s)
    unfolding load_signing_material
    load_signing_material_lem s = rw (is_vault.read vault_path s) refl

    abbrev SignsWith : S → Text → Text → Type 0
    SignsWith s pem kid =
        (token_id owner_sub : Text) (issued_at : Time) (expires_at : Option Time)
        → (vault_signer crypto c vault_path algorithm issuer).sign_token token_id owner_sub
            issued_at expires_at s
          ≡ (
            crypto.encode_jwt (claims_of issuer token_id owner_sub issued_at expires_at) pem
                algorithm (header kid),
            s,
          )

    -- Where a key set is published, there is a secret at the signer's path, and the set has one key:
    -- its numbers are those of the public key that belongs to the private key in the secret, it has
    -- the signer's algorithm, and its id is the one in the secret, or derived from the public key.
    -- Every token signed in that state is encoded with that private key and names the published key
    -- in its header.
    pub public_key_document-sign_token :
        (s : S) (keys : List Jwk)
        → ((vault_signer crypto c vault_path algorithm issuer).public_key_document s).0 ≡ ok keys
        → (secret : Fields) × (is_vault.secrets s vault_path ≡ some secret)
          × (shown : Publishes crypto secret algorithm keys) × ((token_id owner_sub : Text)
                (issued_at : Time) (expires_at : Option Time)
              → (vault_signer crypto c vault_path algorithm issuer).sign_token token_id owner_sub
                  issued_at expires_at s
                ≡ (
                  crypto.encode_jwt
                      (claims_of issuer token_id owner_sub issued_at expires_at)
                      shown.pem
                      algorithm
                      (header shown.jwk.kid),
                  s,
                ))
    public_key_document-sign_token s keys h = go (is_vault.secrets s vault_path) refl
      where
        no_keys : {e : Error} → err e ≡ ok keys → ⊥
        no_keys h = absurd (cc)

        published :
            (secret : Fields) (loaded : Result LoadedSigningMaterial)
            → is_vault.secrets s vault_path ≡ some secret
            → material_in crypto (some secret) ≡ loaded
            → (shown : Publishes crypto secret algorithm keys) × SignsWith s shown.pem shown.jwk.kid
        published secret (ok material) there loads =
            let (shown, pem, kid) =
              document_of-Publishes crypto secret algorithm issuer material keys loads
                (rw (load_signing_material_lem s, there, loads) at h) in
            (
              shown,
              λ token_id owner_sub issued_at expires_at.
                  rw (load_signing_material_lem s, there, loads, pem, kid) refl,
            )
        published secret (err e) there failed =
            absurd (no_keys (rw (load_signing_material_lem s, there, failed) at h))

        go :
            (o : Option Fields)
            → is_vault.secrets s vault_path ≡ o
            → (secret : Fields) × (is_vault.secrets s vault_path ≡ some secret)
              × (shown : Publishes crypto secret algorithm keys) × SignsWith s shown.pem
                  shown.jwk.kid
        go none there =
            unfold material_in in absurd (no_keys (rw (load_signing_material_lem s, there) at h))
        go (some secret) there =
            let (shown, signs) = published secret (material_in crypto (some secret)) there refl in
            (secret, there, shown, signs)

    -- The signer over Vault changes no secret, so the stores over the same Vault may mint with it,
    -- where the drawn ids may name tokens.
    pub vault_signer-IsSigner :
        (f : Formats) (iso : IsIso f) (path_prefix : Text) (p : Platform)
        → ((n : ℕ) → IsVaultTokenId (p.uuid_hex n))
        → IsSigner p
            (vault_reading c is_vault f iso path_prefix)
            (vault_signer crypto c vault_path algorithm issuer)
    vault_signer-IsSigner f iso path_prefix p ids = record {
      reads_only = λ id owner_sub issued_at expires_at s.
          reads (material_in crypto (is_vault.secrets s vault_path)) id owner_sub issued_at
            expires_at s refl;
      id_fits = ids;
    }
      where
        reads :
            (loaded : Result LoadedSigningMaterial) (id owner_sub : Text) (issued_at : Time)
            (expires_at : Option Time) (s : S)
            → material_in crypto (is_vault.secrets s vault_path) ≡ loaded
            → ((vault_signer crypto c vault_path algorithm issuer).sign_token id owner_sub issued_at
                expires_at s).1
              ≡ s
        reads (ok material) id owner_sub issued_at expires_at s e =
            rw (load_signing_material_lem s, e) refl
        reads (err raised) id owner_sub issued_at expires_at s e =
            rw (load_signing_material_lem s, e) refl

    -- Publishing the keys changes nothing either.
    pub vault_signer_document :
        (s : S) → ((vault_signer crypto c vault_path algorithm issuer).public_key_document s).1 ≡ s
    vault_signer_document s = reads (material_in crypto (is_vault.secrets s vault_path)) refl
      where
        reads :
            (loaded : Result LoadedSigningMaterial)
            → material_in crypto (is_vault.secrets s vault_path) ≡ loaded
            → ((vault_signer crypto c vault_path algorithm issuer).public_key_document s).1 ≡ s
        reads (ok material) e = rw (load_signing_material_lem s, e) refl
        reads (err raised) e = rw (load_signing_material_lem s, e) refl
