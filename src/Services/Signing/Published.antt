-- ===== src/Services/Signing/Published.antt =====
-- What `VaultTokenSigner` publishes over a secret: which key it comes from, and under which id.
use gotfr_sec.Prelude.{
  ℕ, ◌≡◌, refl, sym, ap, ◌∙◌, subst, ◌⊎◌, inl, inr, Bool, true, false, Bool-cases, Option, none,
  some, List, [], ◌∷◌,
}
use gotfr_sec.Prelude.Text.{Text, text, truthy, strip, is_ascii}
use gotfr_sec.Domain.Errors.{Error, Result, ok, err}
use gotfr_sec.Repositories.Json.{Json, null, bool, number, str, array, object, Fields, get}
use gotfr_sec.Services.Signer.{Jwk}
use gotfr_sec.Services.Tokens.{encode_ascii}
use gotfr_sec.Services.Signing.{
  Crypto, LoadedSigningMaterial, and_then, derive_kid, jwk_of, public_key_to_jwk, document_of,
  stored_kid, private_key, material_in,
}
use gotfr_sec.Services.Signing.Base64.{b64url_uint}

and_then_cases :
    {A B : Type 0} (first : Result A) (next : A → Result B) (b : B)
    → and_then first next ≡ ok b
    → (a : A) × (first ≡ ok a) × (next a ≡ ok b)
and_then_cases (ok a) next b h = (a, refl, h)
and_then_cases (err e) next b h = absurd (cc)

ok_injective : {A : Type 0} {a b : A} → ok a ≡ ok b → a ≡ b
ok_injective h = cc

err_ok : {A B : Type 0} {e : Error} {a : A} → err e ≡ ok a → B
err_ok h = absurd (cc)

encode_ascii_same : (s encoded : Text) → encode_ascii s ≡ ok encoded → s ≡ encoded
unfolding encode_ascii
encode_ascii_same s encoded h = elim (Bool-cases (is_ascii s)) [
  | inl ascii ↦ ok_injective (rw ascii at h)
  | inr wide ↦ err_ok (rw wide at h)
]

-- Whether a secret names a key that is not blank.
abbrev pub names_key : Json → Bool
names_key (str key_id) = truthy (strip key_id)
names_key value = false

module _ (crypto : Crypto) where
  -- The key id is the one of the secret where that is a text and not blank, and otherwise the one
  -- derived from the public key.
  abbrev pub IsKid : Json → Text → Text → Type 0
  IsKid value public kid =
      ((names_key value ≡ true) × (value ≡ str kid))
      ⊎ ((names_key value ≡ false) × (derive_kid crypto public ≡ ok kid))

  -- A key set over a secret: the private key is the secret's, the public key the private key's, and
  -- the only entry of the set has the numbers of that public key.
  pub record Publishes (secret : Fields) (algorithm : Text) (keys : List Jwk) : Type 0 where
    pub pem : Text
    pub public : Text
    pub n : ℕ
    pub e : ℕ
    pub jwk : Jwk
    pub private_in : get (text "private_key_pem") secret ≡ str pem
    pub private_given : truthy (strip pem) ≡ true
    pub public_of : crypto.public_pem pem ≡ ok public
    pub numbers_of : crypto.rsa_numbers public ≡ ok (some (n, e))
    pub only : keys ≡ jwk ∷ []
    pub kty : jwk.kty ≡ text "RSA"
    pub alg : jwk.alg ≡ algorithm
    pub usage : jwk.usage ≡ text "sig"
    pub n_shown : jwk.n ≡ b64url_uint n
    pub e_shown : jwk.e ≡ b64url_uint e
    pub named : IsKid (get (text "kid") secret) public jwk.kid

  private_key_lem :
      (value : Json) (pem : Text)
      → private_key crypto value ≡ ok pem
      → (value ≡ str pem) × (truthy (strip pem) ≡ true)
  private_key_lem null pem h = err_ok h
  private_key_lem (bool b) pem h = err_ok h
  private_key_lem (number b s) pem h = err_ok h
  private_key_lem (array items) pem h = err_ok h
  private_key_lem (object fields) pem h = err_ok h
  private_key_lem (str s) pem h = elim (Bool-cases (truthy (strip s))) [
    | inl given ↦
        let eq : s ≡ pem = ok_injective (rw given at h) in
        (ap str eq, ap (λ t. truthy (strip t)) (sym eq) ∙ given)
    | inr blank ↦ err_ok (rw blank at h)
  ]

  stored_kid_lem :
      (value : Json) (public kid : Text)
      → stored_kid crypto value public ≡ ok kid
      → IsKid value public kid
  stored_kid_lem null public kid h = inr (refl, h)
  stored_kid_lem (bool b) public kid h = inr (refl, h)
  stored_kid_lem (number b s) public kid h = inr (refl, h)
  stored_kid_lem (array items) public kid h = inr (refl, h)
  stored_kid_lem (object fields) public kid h = inr (refl, h)
  stored_kid_lem (str s) public kid h = elim (Bool-cases (truthy (strip s))) [
    | inl given ↦ inl (given, ap str (ok_injective (rw given at h)))
    | inr blank ↦ inr (blank, rw blank at h)
  ]

  -- The keys that a secret gives.
  record Loads (secret : Fields) (material : LoadedSigningMaterial) : Type 0 where
    private_in : get (text "private_key_pem") secret ≡ str material.private_key_pem
    private_given : truthy (strip material.private_key_pem) ≡ true
    public_of : crypto.public_pem material.private_key_pem ≡ ok material.public_key_pem
    named : IsKid (get (text "kid") secret) material.public_key_pem material.kid

  material_in-Loads :
      (secret : Fields) (material : LoadedSigningMaterial)
      → material_in crypto (some secret) ≡ ok material
      → Loads secret material
  unfolding material_in
  material_in-Loads secret material h =
      let (pem, given, h₁) = and_then_cases _ _ material h in
      let (encoded, ascii, h₂) = and_then_cases _ _ material h₁ in
      let (public, public_of, h₃) = and_then_cases _ _ material h₂ in
      let (kid, named, h₄) = and_then_cases _ _ material h₃ in
      let (private_in, private_given) = private_key_lem _ pem given in
      subst (Loads secret) (ok_injective h₄) (record {
        private_in = private_in;
        private_given = private_given;
        public_of = ap crypto.public_pem (encode_ascii_same pem encoded ascii) ∙ public_of;
        named = stored_kid_lem _ public kid named;
      })

  jwk_of-some :
      (kid algorithm : Text) (numbers : Option (ℕ × ℕ)) (jwk : Jwk)
      → jwk_of crypto kid algorithm numbers ≡ ok jwk
      → (n e : ℕ) × (numbers ≡ some (n, e)) × (jwk_of crypto kid algorithm (some (n, e)) ≡ ok jwk)
  jwk_of-some kid algorithm none jwk h = err_ok h
  jwk_of-some kid algorithm (some (n, e)) jwk h = (n, e, refl, h)

  -- Every entry that is published is built from the loaded keys.
  pub document_of-Publishes :
      (secret : Fields) (algorithm issuer : Text) (material : LoadedSigningMaterial)
      (keys : List Jwk)
      → material_in crypto (some secret) ≡ ok material
      → document_of crypto algorithm issuer material ≡ ok keys
      → (shown : Publishes secret algorithm keys) × (shown.pem ≡ material.private_key_pem)
        × (shown.jwk.kid ≡ material.kid)
  unfolding public_key_to_jwk
  document_of-Publishes secret algorithm issuer material keys loaded h =
      let loads = material_in-Loads secret material loaded in
      let (jwk, made, only) = and_then_cases _ _ keys h in
      let (encoded, ascii, h₁) = and_then_cases _ _ jwk made in
      let (numbers, numbers_of, h₂) = and_then_cases _ _ jwk h₁ in
      let (n, e, some_numbers, built) = jwk_of-some material.kid algorithm numbers jwk h₂ in
      let same = sym (ok_injective built) in
      (
        record {
          pem = material.private_key_pem;
          public = material.public_key_pem;
          n = n;
          e = e;
          jwk = jwk;
          private_in = loads.private_in;
          private_given = loads.private_given;
          public_of = loads.public_of;
          numbers_of =
              ap crypto.rsa_numbers (encode_ascii_same material.public_key_pem encoded ascii)
              ∙ numbers_of
              ∙ ap ok some_numbers;
          only = sym (ok_injective only);
          kty = ap (λ j. j.kty) same;
          alg = ap (λ j. j.alg) same;
          usage = ap (λ j. j.usage) same;
          n_shown = ap (λ j. j.n) same;
          e_shown = ap (λ j. j.e) same;
          named =
              subst (IsKid (get (text "kid") secret) material.public_key_pem)
                (ap (λ j. j.kid) (sym same)) loads.named;
        },
        refl,
        ap (λ j. j.kid) same,
      )
