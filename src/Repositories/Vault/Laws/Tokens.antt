-- ===== src/Repositories/Vault/Laws/Tokens.antt =====
-- `VaultTokenRepository.get` and `upsert`, where the secrets represent a view.
use gotfr_sec.Prelude.{
  ◌≡◌, refl, sym, ◌∙◌, ap, fun_ext, subst, Bool, true, false, Bool-cases, Option-cases, inl, inr,
  Option, none, some, List, [], ◌∷◌, ◌==◌, ==_iff, contains, arith, if◌then◌else◌,
}
use gotfr_sec.Prelude.Text.{Text, text_eq}
use gotfr_sec.Domain.Errors.{ok}
use gotfr_sec.Domain.Models.{IssuedTokenRecord}
use gotfr_sec.Repositories.View.{View, with_token}
use gotfr_sec.Repositories.Lawful.{IsNamed}
use gotfr_sec.Repositories.VaultPaths.{token_path, user_token_path, group_token_path}
use gotfr_sec.Repositories.Vault.Client.{VaultClient, Formats, IsIso}
use gotfr_sec.Repositories.Vault.Documents.{serialize_token}
use gotfr_sec.Repositories.Vault.RoundTrip.{deserialize_token-serialize_token}
use gotfr_sec.Repositories.Vault.Tokens.{
  read_token, get_token, user_index, group_index, drop_owner, drop_groups, write_groups,
  groups_before, upsert_token, vault_tokens,
}
use gotfr_sec.Repositories.Vault.Contract.{IsVault}
use gotfr_sec.Repositories.Vault.Represents.{
  written, owns, IsVaultSubject, IsVaultTokenId, RepresentsAs, Represents,
}
use gotfr_sec.Repositories.Vault.PutToken.{
  reindex, AgreesBut, AgreesBut-update, frame, put_token, put_index,
}
use gotfr_sec.Repositories.Vault.Laws.Profiles.{Stores}

-- The index without the entry of another owner.
abbrev dropped :
    Option IssuedTokenRecord → IssuedTokenRecord → (Text → Text → Bool) → Text → Text → Bool
dropped none t index = index
dropped (some old) t index =
    if old.owner_sub == t.owner_sub then index else reindex old.owner_sub old.token_id false index

-- The old owner's entry goes and the new owner's comes: the index of the new view.
reindex-dropped :
    (v : View) (t : IssuedTokenRecord)
    → ((old : IssuedTokenRecord) → v.token t.token_id ≡ some old → old.token_id ≡ t.token_id)
    → reindex t.owner_sub t.token_id true
        (dropped (v.token t.token_id) t (λ sub id. owns sub (v.token id)))
      ≡ (λ sub id. owns sub ((with_token t v).token id))
reindex-dropped v t keyed = fun_ext λ sub. fun_ext λ id. elim (Bool-cases (t.token_id == id)) [
  | inr differs ↦ elim (Option-cases (v.token t.token_id)) [
    | inl fresh ↦ rw (fresh, differs) ground arith
    | inr (old, there) ↦
        rw (there, differs) ground
          (arith, keyed old there, ==_iff old.token_id id, ==_iff t.token_id id)
  ]
  | inl same ↦ elim (Option-cases (v.token t.token_id)) [
    | inl fresh ↦ rw (fresh, same, sym ((==_iff t.token_id id).0 same), fresh) ground arith
    | inr (old, there) ↦
        let old_id : (old.token_id == id) ≡ true =
          ground (arith, keyed old there, same, ==_iff old.token_id id, ==_iff t.token_id id) in
        let at_id : v.token id ≡ some old =
          ap v.token (sym ((==_iff t.token_id id).0 same)) ∙ there in
        elim (Bool-cases (old.owner_sub == t.owner_sub)) [
          | inl kept ↦
              rw (there, same, kept, at_id, (==_iff old.owner_sub t.owner_sub).0 kept) ground arith
          | inr moved ↦
              rw (there, same, moved, old_id, at_id) ground
                (
                  arith,
                  moved,
                  ==_iff old.owner_sub t.owner_sub,
                  ==_iff old.owner_sub sub,
                  ==_iff t.owner_sub sub,
                )
        ]
  ]
]

module _ {S : Type 0} (c : VaultClient S) (vault : IsVault c) (f : Formats) (iso : IsIso f)
    (path_prefix : Text) where
  read_token-serialize_token :
      (o : Option IssuedTokenRecord) (s : S)
      → ((t : IssuedTokenRecord) → o ≡ some t → IsNamed t.status)
      → read_token c f path_prefix (written (serialize_token f) o) s ≡ (ok o, s)
  read_token-serialize_token none s named = refl
  read_token-serialize_token (some t) s named =
      rw (deserialize_token-serialize_token f iso (c.now s) t (named t refl)) refl

  drop_groups_lem :
      (groups : List Text) (t : IssuedTokenRecord) (s : S)
      → ((drop_groups c f path_prefix groups t s).0 ≡ ok tt)
        × AgreesBut f path_prefix t.token_id
            (vault.secrets s)
            (vault.secrets (drop_groups c f path_prefix groups t s).1)
  unfolding drop_groups
  drop_groups_lem [] t s = (refl, λ key apart. refl)
  drop_groups_lem (group ∷ groups) t s = elim (Bool-cases (contains group t.granted_groups)) [
    | inl kept ↦ rw (drop_groups, kept) (drop_groups_lem groups t s)
    | inr gone ↦
        let path = group_token_path path_prefix group t.token_id in
        let after = (c.delete_secret path s).1 in
        let (returned, agrees) = drop_groups_lem groups t after in
        rw (drop_groups, gone, vault.deletes path s)
          (
            returned,
            λ key apart.
                agrees key apart
                ∙ rw (vault.deleted path s) (
                    AgreesBut-update f path_prefix t.token_id group none (vault.secrets s) key
                      apart),
          )
  ]

  write_groups_lem :
      (groups : List Text) (t : IssuedTokenRecord) (s : S)
      → ((write_groups c f path_prefix groups t s).0 ≡ ok tt)
        × AgreesBut f path_prefix t.token_id
            (vault.secrets s)
            (vault.secrets (write_groups c f path_prefix groups t s).1)
  unfolding write_groups
  write_groups_lem [] t s = (refl, λ key apart. refl)
  write_groups_lem (group ∷ groups) t s =
      let path = group_token_path path_prefix group t.token_id in
      let doc = group_index c f path_prefix t group in
      let after = (c.write_secret path doc s).1 in
      let (returned, agrees) = write_groups_lem groups t after in
      rw (write_groups, vault.writes path doc s)
        (
          returned,
          λ key apart.
              agrees key apart
              ∙ rw (vault.written path doc s) (
                  AgreesBut-update f path_prefix t.token_id group (some doc) (vault.secrets s) key
                    apart),
        )

  drop_owner_lem :
      (previous : Option IssuedTokenRecord) (t : IssuedTokenRecord) (index : Text → Text → Bool)
      (v : View) (s : S)
      → ((old : IssuedTokenRecord)
          → previous ≡ some old
          → IsVaultTokenId old.token_id × IsVaultSubject old.owner_sub)
      → RepresentsAs f path_prefix index (vault.secrets s) v
      → ((drop_owner c f path_prefix previous t s).0 ≡ ok tt)
        × RepresentsAs f path_prefix
            (dropped previous t index)
            (vault.secrets (drop_owner c f path_prefix previous t s).1)
            v
  unfolding drop_owner
  drop_owner_lem none t index v s usable h = (refl, h)
  drop_owner_lem (some old) t index v s usable h =
      elim (Bool-cases (old.owner_sub == t.owner_sub)) [
        | inl same ↦ rw (drop_owner, same) (refl, h)
        | inr differs ↦
            let path = user_token_path path_prefix old.owner_sub old.token_id in
            let (id, subject) = usable old refl in
            rw (drop_owner, differs, vault.deletes path s)
              (
                refl,
                rw (vault.deleted path s) (
                    put_index f path_prefix index (vault.secrets s) v h old.owner_sub old.token_id
                      none id subject),
              )
      ]

  module _ (s : S) (v : View) (h : Represents f path_prefix (vault.secrets s) v) where
    pub get_token_lem : (id : Text) → get_token c f path_prefix id s ≡ (ok (v.token id), s)
    unfolding get_token
    get_token_lem id =
        rw (vault.read (token_path path_prefix id) s, h.tokens id)
          (read_token-serialize_token (v.token id) s (λ t e. (h.token_of id t e).3))

    pub upsert_token_lem :
        (t : IssuedTokenRecord)
        → IsVaultTokenId t.token_id
        → IsVaultSubject t.owner_sub
        → IsNamed t.status
        → Stores c vault f iso path_prefix
            ((vault_tokens c f path_prefix).upsert t s)
            t
            (with_token t v)
    unfolding upsert_token
    upsert_token_lem t hid subject named =
        let previous = v.token t.token_id in
        let path = token_path path_prefix t.token_id in
        let doc = serialize_token f t in
        let s1 = (c.write_secret path doc s).1 in
        let h1 : RepresentsAs f path_prefix (λ sub id. owns sub (v.token id)) (vault.secrets s1)
            (with_token t v) =
          rw (vault.written path doc s)
            (put_token f path_prefix _ (vault.secrets s) v h t hid subject named) in
        let (r2, h2) =
          drop_owner_lem previous t _ (with_token t v) s1
            (λ old e.
              let (id_eq, id, owner, _) = h.token_of t.token_id old e in
              (subst IsVaultTokenId (sym id_eq) id, owner))
            h1 in
        let s2 = (drop_owner c f path_prefix previous t s1).1 in
        let groups = groups_before c f path_prefix previous in
        let (r3, agrees3) = drop_groups_lem groups t s2 in
        let s3 = (drop_groups c f path_prefix groups t s2).1 in
        let h3 =
          frame f path_prefix _ (vault.secrets s2) (with_token t v) h2 t.token_id (vault.secrets s3)
            hid agrees3 in
        let index_path = user_token_path path_prefix t.owner_sub t.token_id in
        let index_doc = user_index c f path_prefix t in
        let s4 = (c.write_secret index_path index_doc s3).1 in
        let h4 =
          put_index f path_prefix _ (vault.secrets s3) (with_token t v) h3 t.owner_sub t.token_id
            (some index_doc) hid subject in
        let index =
          reindex t.owner_sub t.token_id true
            (dropped previous t (λ sub id. owns sub (v.token id))) in
        let h4' =
          subst (λ k. RepresentsAs f path_prefix index k (with_token t v))
            (sym (vault.written index_path index_doc s3)) h4 in
        let (r5, agrees5) = write_groups_lem t.granted_groups t s4 in
        let s5 = (write_groups c f path_prefix t.granted_groups t s4).1 in
        let h5 =
          frame f path_prefix _ (vault.secrets s4) (with_token t v) h4' t.token_id
            (vault.secrets s5) hid agrees5 in
        record {
          returned =
              rw
                (
                  get_token_lem t.token_id,
                  vault.writes path doc s,
                  r2,
                  r3,
                  vault.writes index_path index_doc s3,
                  r5,
                )
                refl;
          represents =
              rw
                (
                  get_token_lem t.token_id,
                  vault.writes path doc s,
                  r2,
                  r3,
                  vault.writes index_path index_doc s3,
                  r5,
                )
                (subst
                  (λ index. RepresentsAs f path_prefix index (vault.secrets s5) (with_token t v))
                  (reindex-dropped v t (λ old e. (h.token_of t.token_id old e).0)) h5);
        }
