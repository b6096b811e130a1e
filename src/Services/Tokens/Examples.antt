-- ===== src/Services/Tokens/Examples.antt =====
-- Calls of the token services and of the runtime service on the sample process.
use gotfr_sec.Prelude.{
  ◌⊎◌, true, false, ◌≡◌, ◌↔◌, ◌<◌, ◌+◌, refl, none, some, List, [], ◌∷◌, list_beq, contains, Member,
}
use gotfr_sec.Prelude.Text.{text, strip, lower, is_ascii, text_eq}
use gotfr_sec.Domain.Errors.{ok, err, token_not_found}
use gotfr_sec.Domain.Models.{
  IssuedTokenRecord, AuthorizationDecision, active, token_mint, token_inspect, token_revoke,
  token_list, microseconds,
}
use gotfr_sec.Domain.Rules.{
  is_edge, is_inner, ensure_runtime_groups_allowed, normalize_group_name, reserved_admin_group,
}
use gotfr_sec.Repositories.Dict.{lookup}
use gotfr_sec.Repositories.InMemory.{in_memory}
use gotfr_sec.Repositories.InMemory.Laws.{memory_reading, in_memory-IsLawful, memory_view}
use gotfr_sec.Services.Contract.{Ends, map_result}
use gotfr_sec.Services.Tokens.{
  revoke_found, revoke_body, get_token_or_raise, MintedTokenResult, mint_body, issue,
  validate_groups, collect_groups, add_seconds, encode_ascii, mint_token, get_token, revoke_token,
  list_self_tokens, found_token,
}
use gotfr_sec.Services.Tokens.Mint.{mint_token-Ends, minted_view, minted_for, grants_to}
use gotfr_sec.Services.Tokens.Minted.{IsMinted, mint_token-IsMinted}
use gotfr_sec.Services.Tokens.Revoke.{
  get_token-Ends, revoke_token-Ends, revoked_record, revoked_view,
}
use gotfr_sec.Services.Tokens.Listing.{IsLatestFirst, list_self_tokens-Ends}
use gotfr_sec.Services.Tokens.Audit.{token_calls-Logs}
use gotfr_sec.Services.Runtime.{authorize}
use gotfr_sec.Services.Runtime.Decision.{asks, IsAllowed, authorize_iff}
use gotfr_sec.Services.Lifecycle.{
  authorize-revoke_token, authorize-mint_token, authorize-mint_token_admin,
}
use gotfr_sec.Exec.{audited}
use gotfr_sec.Exec.Audited.{Logs}
use gotfr_sec.Examples.Sample.{
  platform, alice, bob, ops, store, token, store-IsStore, world, signer, signer-IsSigner,
  default_lifetime, carol,
}

-- What a mint for `bob` of the group `ops` returns.
abbrev minted : MintedTokenResult
minted = record {
  minted = record {
    token_id = b'f' ∷ 0 ∷ [];
    owner_sub = bob;
    granted_groups = ops ∷ [];
    status = active;
    issued_at = 2000;
    expires_at = some 3600002000;
    issued_by_sub = some alice;
    jwt_hash = some (b'#' ∷ b'f' ∷ 0 ∷ []);
    pending_reveal = false;
    revoked_at = none;
  };
  raw_token = b'f' ∷ 0 ∷ [];
}

mint_returns :
    (mint_token platform in_memory signer default_lifetime bob
      (text " OPS " ∷ [])
      alice
      none
      none
      (some 2000)
      world).0
    ≡ ok minted
unfolding mint_token mint_body issue validate_groups collect_groups audited normalize_group_name
    strip lower ensure_runtime_groups_allowed lookup list_beq contains is_ascii add_seconds
    encode_ascii is_edge is_inner
mint_returns = refl

mint_token-Ends_example :
    let result =
      minted_for platform in_memory memory_reading in_memory-IsLawful signer signer-IsSigner
        default_lifetime bob
        (text " OPS " ∷ [])
        alice
        none
        world
        store-IsStore
        (some 2000)
        (grants_to platform.wide (memory_view store) bob (text " OPS " ∷ []) default_lifetime) in
    Ends memory_reading
      (mint_token platform in_memory signer default_lifetime bob
        (text " OPS " ∷ [])
        alice
        none
        none
        (some 2000)
        world)
      result
      (minted_view result (memory_view store))
mint_token-Ends_example =
    mint_token-Ends platform in_memory memory_reading in_memory-IsLawful signer signer-IsSigner
      default_lifetime bob (text " OPS " ∷ []) alice none world store-IsStore none (some 2000)

mint_token-IsMinted_example :
    IsMinted platform.wide
      (memory_view store)
      bob
      (text " OPS " ∷ [])
      default_lifetime
      2000
      minted.minted
mint_token-IsMinted_example =
    mint_token-IsMinted platform in_memory memory_reading in_memory-IsLawful signer signer-IsSigner
      default_lifetime bob (text " OPS " ∷ []) alice none none (some 2000) world store-IsStore
      mint_returns

revoke_returns :
    (revoke_token platform in_memory (text "t1") bob none (some 7) world).0
    ≡ ok (revoked_record 7 token)
unfolding revoke_token revoke_body revoke_found get_token_or_raise audited lookup list_beq
revoke_returns = refl

get_token-Ends_example :
    let v = memory_view store in
    let outcome = get_token platform in_memory (text "t1") bob none world in
    ((t : IssuedTokenRecord) × (v.token (text "t1") ≡ some t)
      × Ends memory_reading outcome (ok t) v)
    ⊎ ((v.token (text "t1") ≡ none)
        × Ends memory_reading outcome (err (token_not_found (text "t1"))) v)
get_token-Ends_example =
    get_token-Ends platform in_memory memory_reading in_memory-IsLawful (text "t1") bob none world
      store-IsStore

revoke_token-Ends_example :
    let found = (memory_view store).token (text "t1") in
    Ends memory_reading
      (revoke_token platform in_memory (text "t1") bob none (some 7) world)
      (map_result (revoked_record 7) (found_token (text "t1") found))
      (revoked_view 7 found (memory_view store))
revoke_token-Ends_example =
    revoke_token-Ends platform in_memory memory_reading in_memory-IsLawful (text "t1") bob none
      (some 7) world store-IsStore

list_self_tokens-Ends_example :
    (ts : List IssuedTokenRecord) × Ends memory_reading
      (list_self_tokens platform in_memory carol none world)
      (ok ts)
      (memory_view store)
    × IsLatestFirst ts
    × ((t : IssuedTokenRecord)
        → Member t ts
          ↔ (((memory_view store).token t.token_id ≡ some t) × (t.owner_sub ≡ text "carol")))
list_self_tokens-Ends_example =
    list_self_tokens-Ends platform in_memory memory_reading in_memory-IsLawful carol none world
      store-IsStore

authorize_iff_example :
    let (result, w') =
      authorize platform in_memory (asks (text "t1") alice ops) none (some 6) world in
    (decision : AuthorizationDecision) × (result ≡ ok decision)
    × (w'.store ≡ store)
    × ((decision.allowed ≡ true)
        ↔ IsAllowed 6 (text "t1") alice ops ((memory_view store).token (text "t1")))
authorize_iff_example =
    authorize_iff platform in_memory memory_reading in_memory-IsLawful (text "t1") alice ops none
      (some 6) world store-IsStore refl

authorize-revoke_token_example :
    (authorize platform in_memory
      (asks (text "t1") alice ops)
      none
      (some 8)
      (revoke_token platform in_memory (text "t1") bob none (some 7) world).1).0
    ≡ ok (record { allowed = false })
authorize-revoke_token_example =
    authorize-revoke_token platform in_memory memory_reading in_memory-IsLawful
      (asks (text "t1") alice ops) bob none none (some 7) (some 8) world store-IsStore
      revoke_returns

authorize-mint_token_example :
    (decision : AuthorizationDecision) × ((authorize platform in_memory
        (asks (b'f' ∷ 0 ∷ []) bob ops)
        none
        (some 3000)
        (mint_token platform in_memory signer default_lifetime bob
          (text " OPS " ∷ [])
          alice
          none
          none
          (some 2000)
          world).1).0
      ≡ ok decision)
    × ((decision.allowed ≡ true)
        ↔ ((bob ≡ bob) × (3000 < 2000 + microseconds 3600) × (contains ops (ops ∷ []) ≡ true)))
authorize-mint_token_example =
    authorize-mint_token platform in_memory memory_reading in_memory-IsLawful signer signer-IsSigner
      default_lifetime bob (text " OPS " ∷ []) alice none none none (some 2000) (some 3000) world
      bob ops minted store-IsStore refl mint_returns

authorize-mint_token_admin_example :
    (authorize platform in_memory
      (asks (b'f' ∷ 0 ∷ []) bob reserved_admin_group)
      none
      (some 3000)
      (mint_token platform in_memory signer default_lifetime bob
        (text " OPS " ∷ [])
        alice
        none
        none
        (some 2000)
        world).1).0
    ≡ ok (record { allowed = false })
authorize-mint_token_admin_example =
    authorize-mint_token_admin platform in_memory memory_reading in_memory-IsLawful signer
      signer-IsSigner default_lifetime bob (text " OPS " ∷ []) alice none none none (some 2000)
      (some 3000) world bob minted store-IsStore mint_returns

token_calls-Logs_example :
    Logs world
      (mint_token platform in_memory signer default_lifetime bob
        (text " OPS " ∷ [])
        alice
        none
        none
        (some 2000)
        world)
      token_mint
      alice
      none
    × Logs world
        (get_token platform in_memory (text "t2") alice none world)
        token_inspect
        alice
        none
    × Logs world
        (revoke_token platform in_memory (text "t2") alice none (some 2000) world)
        token_revoke
        alice
        none
    × Logs world
        (list_self_tokens platform in_memory carol none world)
        token_list
        (text "carol")
        none
token_calls-Logs_example =
    token_calls-Logs platform in_memory signer default_lifetime (text "t2") bob alice
      (text " OPS " ∷ []) none none (some 2000) carol world
