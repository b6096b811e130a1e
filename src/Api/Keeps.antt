-- ===== src/Api/Keeps.antt =====
-- Requests keep the stores valid and the reserved group inhabited, one by one and in sequence.
use gotfr_sec.Prelude.{◌≡◌, refl, Bool-cases, inl, inr, Option, none, some, List, arith}
use gotfr_sec.Prelude.Int.{ℤ}
use gotfr_sec.Prelude.Text.{Text, text_eq, strip, truthy}
use gotfr_sec.Repositories.Interfaces.{RepositoryBundle}
use gotfr_sec.Repositories.Lawful.{Reading, IsLawful}
use gotfr_sec.Services.Identity.{VerifiedIdentity}
use gotfr_sec.Services.Signer.{TokenSigner}
use gotfr_sec.Services.Tokens.{lifetime_or}
use gotfr_sec.Services.Tokens.Mint.{minted_for, grants_to, mint_token-Ends}
use gotfr_sec.Services.Tokens.Listing.{list_self_tokens-Ends}
use gotfr_sec.Services.Runtime.Decision.{get_public_key_document_lem, authorize_lem}
use gotfr_sec.Services.Registration.Profile.{register_self_lem}
use gotfr_sec.Services.Registration.Groups.{get_self_profile_lem}
use gotfr_sec.Exec.{Platform, World}
use gotfr_sec.Api.{identified}
use gotfr_sec.Api.Routes.{
  Request, group_posted, membership_posted, membership_deleted, token_posted, token_read,
  token_revoked, registration_posted, me_read, my_tokens_read, keys_read, authorization_posted,
  serve, create_token, register_me, get_me, get_my_tokens, get_runtime_public_keys,
  authorize_runtime_request,
}
use gotfr_sec.Api.Schemas.{RuntimeAuthorizationRequestSchema, validate_target}
use gotfr_sec.Api.Governed.{
  IsGoverned, governed, VerifiesSubjects, SignsFairly, minted_view-HasAdmin,
}
use gotfr_sec.Api.Gates.{
  with_identity-IsGoverned, with_admin-IsGoverned, create_group_route-IsGoverned,
  add_group_membership-IsGoverned, remove_group_membership-IsGoverned, get_token_route-IsGoverned,
  revoke_token_route-IsGoverned,
}

module _ {S : Type 0} (p : Platform) (r : RepositoryBundle S) (reading : Reading S)
    (law : IsLawful reading r) (verify : Text → Option VerifiedIdentity) where
  get_me-IsGoverned :
      (credentials : Option Text) (w : World S)
      → IsGoverned reading w
      → IsGoverned reading (get_me p r verify credentials w).1
  unfolding get_me
  get_me-IsGoverned credentials w g =
      with_identity-IsGoverned p r reading law verify credentials _ w g
        λ i h. let (_, reads, _) = get_self_profile_lem p r reading law i w g.valid in rw reads g

  get_my_tokens-IsGoverned :
      (credentials cid : Option Text) (w : World S)
      → IsGoverned reading w
      → IsGoverned reading (get_my_tokens p r verify credentials cid w).1
  unfolding get_my_tokens
  get_my_tokens-IsGoverned credentials cid w g =
      with_identity-IsGoverned p r reading law verify credentials _ w g λ i h.
        let (_, ends, _, _) = list_self_tokens-Ends p r reading law i cid w g.valid in
        governed reading ends g.admin

  authorize_runtime_request-IsGoverned :
      (payload : RuntimeAuthorizationRequestSchema) (cid : Option Text) (w : World S)
      → IsGoverned reading w
      → IsGoverned reading (authorize_runtime_request p r verify payload cid w).1
  unfolding authorize_runtime_request
  authorize_runtime_request-IsGoverned payload cid w g = go (validate_target payload) refl
    where
      go :
          (o : Option RuntimeAuthorizationRequestSchema)
          → validate_target payload ≡ o
          → IsGoverned reading (authorize_runtime_request p r verify payload cid w).1
      go none h = rw h g
      go (some q) h =
          rw (h, authorize_lem p r reading law _ cid none w g.valid)
            (record { valid = g.valid; admin = g.admin })

  identified-IsSubject :
      VerifiesSubjects reading verify
      → (credentials : Option Text) (i : VerifiedIdentity) → identified verify credentials ≡ some i
      → reading.IsSubject i.subject
  identified-IsSubject usable none i h = absurd (cc)
  identified-IsSubject usable (some credentials) i h =
      elim (Bool-cases (truthy (strip credentials))) [
        | inl given ↦ usable credentials i (rw given at h)
        | inr blank ↦ absurd (ground (arith, blank, h))
      ]

  register_me-IsGoverned :
      (credentials cid : Option Text) (w : World S)
      → VerifiesSubjects reading verify
      → IsGoverned reading w
      → IsGoverned reading (register_me p r verify credentials cid w).1
  unfolding register_me
  register_me-IsGoverned credentials cid w usable g =
      with_identity-IsGoverned p r reading law verify credentials _ w g λ i h.
        governed reading
          (register_self_lem p r reading law i (identified-IsSubject usable credentials i h) cid
            none w g.valid)
          g.admin

  module _ (default_lifetime : ℤ) where
    create_token-IsGoverned :
        (signer : Option (TokenSigner S)) (sub : Text) (groups : List Text) (seconds : Option ℤ)
        (credentials cid : Option Text) (w : World S)
        → SignsFairly p reading signer
        → IsGoverned reading w
        → IsGoverned reading
            (create_token p r verify signer default_lifetime sub groups seconds credentials cid w).1
    unfolding create_token
    create_token-IsGoverned none sub groups seconds credentials cid w fair g =
        with_admin-IsGoverned p r reading law verify credentials _ w g λ i. g
    create_token-IsGoverned (some signer) sub groups seconds credentials cid w fair g =
        with_admin-IsGoverned p r reading law verify credentials _ w g λ i.
          let v = reading.view w.store in
          governed reading
            (mint_token-Ends p r reading law signer fair.0 default_lifetime sub groups i.subject
              seconds w g.valid cid none)
            (minted_view-HasAdmin
              (minted_for p r reading law signer fair.0 default_lifetime sub groups i.subject
                seconds w g.valid none
                (grants_to p.wide v sub groups (lifetime_or default_lifetime seconds)))
              v g.admin)

    get_runtime_public_keys-IsGoverned :
        (signer : Option (TokenSigner S)) (w : World S)
        → SignsFairly p reading signer
        → IsGoverned reading w
        → IsGoverned reading (get_runtime_public_keys p r verify signer default_lifetime w).1
    unfolding get_runtime_public_keys
    get_runtime_public_keys-IsGoverned none w fair g = g
    get_runtime_public_keys-IsGoverned (some signer) w fair g =
        rw (get_public_key_document_lem p r reading law signer w, fair.1 w.store)
          (record { valid = g.valid; admin = g.admin })

    -- Whatever is requested by whom: a request that is served in a world with valid stores and a
    -- member of the reserved group leaves a world with valid stores and such a member. The verifier
    -- gives subjects that may name a user, and the signer, if there is one, changes no store.
    pub serve-IsGoverned :
        (signer : Option (TokenSigner S)) (request : Request) (credentials cid : Option Text)
        (w : World S)
        → VerifiesSubjects reading verify
        → SignsFairly p reading signer
        → IsGoverned reading w
        → IsGoverned reading (serve p r verify signer default_lifetime request credentials cid w).1
    unfolding serve
    serve-IsGoverned signer (group_posted name description) credentials cid w usable fair g =
        create_group_route-IsGoverned p r reading law verify name description credentials cid w g
    serve-IsGoverned signer (membership_posted sub group) credentials cid w usable fair g =
        add_group_membership-IsGoverned p r reading law verify sub group credentials cid w g
    serve-IsGoverned signer (membership_deleted sub group) credentials cid w usable fair g =
        remove_group_membership-IsGoverned p r reading law verify sub group credentials cid w g
    serve-IsGoverned signer (token_posted sub groups seconds) credentials cid w usable fair g =
        create_token-IsGoverned signer sub groups seconds credentials cid w fair g
    serve-IsGoverned signer (token_read id) credentials cid w usable fair g =
        get_token_route-IsGoverned p r reading law verify id credentials cid w g
    serve-IsGoverned signer (token_revoked id) credentials cid w usable fair g =
        revoke_token_route-IsGoverned p r reading law verify id credentials cid w g
    serve-IsGoverned signer registration_posted credentials cid w usable fair g =
        register_me-IsGoverned credentials cid w usable g
    serve-IsGoverned signer me_read credentials cid w usable fair g =
        get_me-IsGoverned credentials w g
    serve-IsGoverned signer my_tokens_read credentials cid w usable fair g =
        get_my_tokens-IsGoverned credentials cid w g
    serve-IsGoverned signer keys_read credentials cid w usable fair g =
        get_runtime_public_keys-IsGoverned signer w fair g
    serve-IsGoverned signer (authorization_posted payload) credentials cid w usable fair g =
        authorize_runtime_request-IsGoverned payload cid w g
