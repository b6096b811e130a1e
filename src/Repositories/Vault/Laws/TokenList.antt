-- ===== src/Repositories/Vault/Laws/TokenList.antt =====
-- `VaultTokenRepository.list_for_user`, where the secrets represent a view.
use gotfr_sec.Prelude.{
  ◌≡◌, refl, sym, ◌∙◌, ap, subst, true, false, Bool-cases, inl, inr, Option, none, some, List, [],
  ◌∷◌, ==_iff, is_some, Member, ◌⊎◌, ◌↔◌, arith, if◌then◌else◌,
}
use gotfr_sec.Prelude.Text.{Text, text, text_eq, truthy}
use gotfr_sec.Domain.Errors.{ok}
use gotfr_sec.Domain.Models.{IssuedTokenRecord}
use gotfr_sec.Repositories.View.{View}
use gotfr_sec.Repositories.VaultPaths.{
  under, under_assoc, users_root, user_root, user_tokens_root, user_token_path,
}
use gotfr_sec.Repositories.Vault.Client.{VaultClient, Formats, IsIso}
use gotfr_sec.Repositories.Vault.Users.{rstrip_slash}
use gotfr_sec.Repositories.Vault.Tokens.{appended, list_tokens, vault_tokens}
use gotfr_sec.Repositories.Vault.Contract.{KeyBelow, leaf, folder, IsVault}
use gotfr_sec.Repositories.Vault.Represents.{owns, Represents}
use gotfr_sec.Repositories.Vault.Listing.{rstrip_slash_segment, slashes-under, slashes-UserKey}
use gotfr_sec.Repositories.Vault.Laws.Tokens.{get_token_lem}

-- What the loop of `list_for_user` reads.
abbrev found_at : View → List Text → List IssuedTokenRecord
found_at v [] = []
found_at v (key ∷ keys) =
    let rest = found_at v keys in
    if truthy (rstrip_slash key) then appended (v.token (rstrip_slash key)) rest else rest

Member-appended :
    (t : IssuedTokenRecord) (o : Option IssuedTokenRecord) (ts : List IssuedTokenRecord)
    → Member t (appended o ts) ↔ ((o ≡ some t) ⊎ Member t ts)
Member-appended t none ts = (λ m. inr m, elim [ inl e ↦ absurd (cc) | inr m ↦ m ])
Member-appended t (some u) ts = (
  elim [ inl e ↦ inl (ap some (sym e)) | inr m ↦ inr m ],
  elim [ inl e ↦ inl (ground arith) | inr m ↦ inr m ],
)

found_at-Member :
    (v : View) (t : IssuedTokenRecord) (keys : List Text)
    → Member t (found_at v keys)
    → (key : Text) × Member key keys
      × (truthy (rstrip_slash key) ≡ true)
      × (v.token (rstrip_slash key) ≡ some t)
found_at-Member v t [] m = absurd m
found_at-Member v t (key ∷ keys) m = elim (Bool-cases (truthy (rstrip_slash key))) [
  | inl given ↦ elim ((Member-appended t _ _).0 (rw given at m)) [
    | inl e ↦ (key, inl refl, given, e)
    | inr m' ↦ let (k, mk, g, e) = found_at-Member v t keys m' in (k, inr mk, g, e)
  ]
  | inr empty ↦ let (k, mk, g, e) = found_at-Member v t keys (rw empty at m) in (k, inr mk, g, e)
]

Member-found_at :
    (v : View) (t : IssuedTokenRecord) (keys : List Text) (key : Text)
    → Member key keys
    → truthy (rstrip_slash key) ≡ true
    → v.token (rstrip_slash key) ≡ some t
    → Member t (found_at v keys)
Member-found_at v t [] key m given there = absurd m
Member-found_at v t (k ∷ keys) key (inl e) given there =
    let given' = subst (λ k. truthy (rstrip_slash k) ≡ true) e given in
    let there' = subst (λ k. v.token (rstrip_slash k) ≡ some t) e there in
    rw given' ((Member-appended t _ _).1 (inl there'))
Member-found_at v t (k ∷ keys) key (inr m) given there =
    let rest = Member-found_at v t keys key m given there in
    elim (Bool-cases (truthy (rstrip_slash k))) [
      | inl named ↦ rw named ((Member-appended t _ _).1 (inr rest))
      | inr empty ↦ rw empty rest
    ]

module _ {S : Type 0} (c : VaultClient S) (vault : IsVault c) (f : Formats) (iso : IsIso f)
    (path_prefix : Text) where
  module _ (s : S) (v : View) (h : Represents f path_prefix (vault.secrets s) v) where
    list_tokens_lem :
        (keys : List Text) → list_tokens c f path_prefix keys s ≡ (ok (found_at v keys), s)
    unfolding list_tokens
    list_tokens_lem [] = refl
    list_tokens_lem (key ∷ keys) = elim (Bool-cases (truthy (rstrip_slash key))) [
      | inl given ↦
          rw
            (
              list_tokens,
              given,
              get_token_lem c vault f iso path_prefix s v h (rstrip_slash key),
              list_tokens_lem keys,
            )
            refl
      | inr empty ↦ rw (list_tokens, empty) (list_tokens_lem keys)
    ]

    -- Below the folder of a user's tokens stands no further folder.
    no_folder :
        (sub name rest : Text)
        → is_some (vault.secrets s (under (user_tokens_root path_prefix sub) (under name rest)))
          ≡ false
    no_folder sub name rest =
        elim (Bool-cases (
          is_some (vault.secrets s (under (user_tokens_root path_prefix sub) (under name rest))))) [
            | inl there ↦
                let path_eq : under (user_tokens_root path_prefix sub) (under name rest)
                    ≡ under (users_root path_prefix)
                        (under sub (under (text "tokens") (under name rest))) =
                  under_assoc (user_root path_prefix sub) (text "tokens") (under name rest)
                  ∙ under_assoc (users_root path_prefix) sub
                      (under (text "tokens") (under name rest)) in
                let shallow =
                  slashes-UserKey _
                    (h.users _ (subst (λ k. is_some (vault.secrets s k) ≡ true) path_eq there)) in
                absurd (
                  omega (
                    arith,
                    shallow,
                    slashes-under sub (under (text "tokens") (under name rest)),
                    slashes-under (text "tokens") (under name rest),
                    slashes-under name rest,
                  ))
            | inr absent ↦ absent
          ]

    -- A token that the listing names is the user's own.
    owned :
        (sub : Text) (t : IssuedTokenRecord) (key : Text)
        → KeyBelow (vault.secrets s) (user_tokens_root path_prefix sub) key
        → v.token (rstrip_slash key) ≡ some t
        → t.owner_sub ≡ sub
    unfolding user_token_path
    owned sub t key (leaf name seg there) e =
        let e' = rw (rstrip_slash_segment name seg) at e in
        let (_, hid, _, _) = h.token_of name t e' in
        (==_iff t.owner_sub sub).0 (ap (owns sub) (sym e') ∙ sym (h.indexed sub name hid) ∙ there)
    owned sub t key (folder name rest seg there) e =
        absurd (ground (arith, there, no_folder sub name rest))

    -- A user's token stands in the listing.
    listed :
        (sub : Text) (t : IssuedTokenRecord)
        → v.token t.token_id ≡ some t
        → t.owner_sub ≡ sub
        → KeyBelow (vault.secrets s) (user_tokens_root path_prefix sub) t.token_id
    unfolding user_token_path
    listed sub t e owner =
        let (_, hid, _, _) = h.token_of t.token_id t e in
        leaf t.token_id hid.segment
          (h.indexed sub t.token_id hid ∙ ap (owns sub) e ∙ (==_iff t.owner_sub sub).1 owner)

    pub list_for_user_lem :
        (sub : Text)
        → (tokens : List IssuedTokenRecord) × ((vault_tokens c f path_prefix).list_for_user sub s
            ≡ (ok tokens, s))
          × ((t : IssuedTokenRecord)
              → Member t tokens ↔ ((v.token t.token_id ≡ some t) × (t.owner_sub ≡ sub)))
    list_for_user_lem sub =
        let (keys, reads, lists) = vault.lists (user_tokens_root path_prefix sub) s in
        (
          found_at v keys,
          rw (reads) (list_tokens_lem keys),
          λ t. (
            λ m.
                let (key, mk, given, e) = found_at-Member v t keys m in
                let (id_eq, _, _, _) = h.token_of _ t e in
                (ap v.token id_eq ∙ e, owned sub t key (lists.sound key mk) e),
            λ (e, owner).
                let (_, hid, _, _) = h.token_of t.token_id t e in
                let same = rstrip_slash_segment t.token_id hid.segment in
                Member-found_at v t keys t.token_id (lists.complete _ (listed sub t e owner))
                  (ap truthy same ∙ hid.given) (ap v.token same ∙ e),
          ),
        )
