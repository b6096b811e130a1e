-- ===== src/Services/Tokens/Audit.antt =====
-- Every call of the two token services is audited once.
use gotfr_sec.Prelude.{ℕ, Bool-cases, Option, List, [], ◌∷◌, ◌++◌, refl, inl, inr, contains}
use gotfr_sec.Prelude.Int.{ℤ}
use gotfr_sec.Prelude.Text.{Text, text_eq}
use gotfr_sec.Domain.Errors.{group_not_found}
use gotfr_sec.Services.AdminGroups.{is_unusable}
use gotfr_sec.Domain.Models.{
  Time, IssuedTokenRecord, token_mint, token_inspect, token_revoke, token_list,
}
use gotfr_sec.Repositories.Interfaces.{RepositoryBundle}
use gotfr_sec.Exec.{Platform, World}
use gotfr_sec.Exec.Audited.{
  Quiet, Quiet-bind, Quiet-stored, Quiet-raise_if, quiet_rules, Logs, audited-Logs,
}
use gotfr_sec.Services.Identity.{VerifiedIdentity}
use gotfr_sec.Services.Signer.{TokenSigner}
use gotfr_sec.Services.Tokens.{
  collect_groups, validate_groups, get_token_or_raise, get_token, revoke_found, revoke_body,
  revoke_token, issue, mint_body, mint_token, list_self_tokens,
}

module _ {S : Type 0} (p : Platform) (r : RepositoryBundle S) where
  collect_groups-Quiet :
      (unique seen names : List Text) → Quiet (collect_groups p r unique seen names)
  unfolding collect_groups
  collect_groups-Quiet unique seen [] = search quiet_rules
  collect_groups-Quiet unique seen (name ∷ names) = elim (Bool-cases (contains name seen)) [
    | inl old ↦ rw (old, collect_groups) (collect_groups-Quiet unique seen names)
    | inr new ↦
        rw (new, collect_groups)
          (Quiet-bind _ _ (Quiet-stored (r.groups.get name)) λ group.
            Quiet-bind _ _ (Quiet-raise_if (is_unusable group) (group_not_found name))
              λ _. collect_groups-Quiet (unique ++ name ∷ []) (name ∷ seen) names)
  ]

  validate_groups-Quiet : (groups : List Text) → Quiet (validate_groups p r groups)
  unfolding validate_groups
  validate_groups-Quiet groups = search (quiet_rules, collect_groups-Quiet)

  get_token_or_raise-Quiet : (id : Text) → Quiet (get_token_or_raise p r id)
  unfolding get_token_or_raise
  get_token_or_raise-Quiet id = search quiet_rules

  revoke_found-Quiet : (t : IssuedTokenRecord) (now : Option Time) → Quiet (revoke_found p r t now)
  unfolding revoke_found
  revoke_found-Quiet t now = search quiet_rules

  revoke_body-Quiet : (id : Text) (now : Option Time) → Quiet (revoke_body p r id now)
  unfolding revoke_body
  revoke_body-Quiet id now = search (quiet_rules, get_token_or_raise-Quiet, revoke_found-Quiet)

  get_token-Logs :
      (id actor_sub : Text) (cid : Option Text) (w : World S)
      → Logs w (get_token p r id actor_sub cid w) token_inspect actor_sub cid
  unfolding get_token
  get_token-Logs id actor_sub cid =
      audited-Logs p _ _ (λ now. (refl, refl, refl, refl)) (λ t now. (refl, refl, refl, refl)) _
        (get_token_or_raise-Quiet id)

  revoke_token-Logs :
      (id actor_sub : Text) (cid : Option Text) (now : Option Time) (w : World S)
      → Logs w (revoke_token p r id actor_sub cid now w) token_revoke actor_sub cid
  unfolding revoke_token
  revoke_token-Logs id actor_sub cid now =
      audited-Logs p _ _ (λ now. (refl, refl, refl, refl)) (λ t now. (refl, refl, refl, refl)) _
        (revoke_body-Quiet id now)

  list_self_tokens-Logs :
      (identity : VerifiedIdentity) (cid : Option Text) (w : World S)
      → Logs w (list_self_tokens p r identity cid w) token_list identity.subject cid
  unfolding list_self_tokens
  list_self_tokens-Logs identity cid =
      audited-Logs p _ _ (λ now. (refl, refl, refl, refl)) (λ t now. (refl, refl, refl, refl)) _
        (search quiet_rules)

  module _ (signer : TokenSigner S) (default_lifetime : ℤ) where
    issue-Quiet :
        (owner_sub : Text) (granted : List Text) (actor_sub : Text) (seconds : ℕ) (t : Time)
        → Quiet (issue p r signer default_lifetime owner_sub granted actor_sub seconds t)
    unfolding issue
    issue-Quiet owner_sub granted actor_sub seconds t = search quiet_rules depth 14

    mint_body-Quiet :
        (owner_sub : Text) (groups : List Text) (actor_sub : Text) (lifetime : Option ℤ)
        (now : Option Time)
        → Quiet (mint_body p r signer default_lifetime owner_sub groups actor_sub lifetime now)
    unfolding mint_body
    mint_body-Quiet owner_sub groups actor_sub lifetime now =
        search (quiet_rules, validate_groups-Quiet, issue-Quiet) depth 14

    mint_token-Logs :
        (owner_sub : Text) (groups : List Text) (actor_sub : Text) (cid : Option Text)
        (lifetime : Option ℤ) (now : Option Time) (w : World S)
        → Logs w
            (mint_token p r signer default_lifetime owner_sub groups actor_sub cid lifetime now w)
            token_mint
            actor_sub
            cid
    unfolding mint_token
    mint_token-Logs owner_sub groups actor_sub cid lifetime now =
        audited-Logs p _ _ (λ now. (refl, refl, refl, refl)) (λ t now. (refl, refl, refl, refl)) _
          (mint_body-Quiet owner_sub groups actor_sub lifetime now)

    -- Over any stores, each call of `mint_token`, `get_token`, `revoke_token` and
    -- `list_self_tokens`, whether it returns or raises, appends exactly one event to the audit log;
    -- it names the operation, the caller and the request, and is a success exactly if the call
    -- returned.
    pub token_calls-Logs :
        (id owner_sub actor_sub : Text) (groups : List Text) (cid : Option Text)
        (lifetime : Option ℤ) (now : Option Time) (identity : VerifiedIdentity) (w : World S)
        → Logs w
            (mint_token p r signer default_lifetime owner_sub groups actor_sub cid lifetime now w)
            token_mint
            actor_sub
            cid
          × Logs w (get_token p r id actor_sub cid w) token_inspect actor_sub cid
          × Logs w (revoke_token p r id actor_sub cid now w) token_revoke actor_sub cid
          × Logs w (list_self_tokens p r identity cid w) token_list identity.subject cid
    token_calls-Logs id owner_sub actor_sub groups cid lifetime now identity w = (
      mint_token-Logs owner_sub groups actor_sub cid lifetime now w,
      get_token-Logs id actor_sub cid w,
      revoke_token-Logs id actor_sub cid now w,
      list_self_tokens-Logs identity cid w,
    )
