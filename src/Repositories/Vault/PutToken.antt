-- ===== src/Repositories/Vault/PutToken.antt =====
-- What the writes of `VaultTokenRepository.upsert` do to secrets that represent a view.
use gotfr_sec.Prelude.{
  ◌≡◌, ◌≢◌, refl, sym, ◌∙◌, ap, subst, Bool, false, ◌&&◌, Bool-cases, inl, inr, Option, some, ◌==◌,
  ==_iff, is_some, arith, if◌then◌else◌,
}
use gotfr_sec.Prelude.Text.{Text, text_eq}
use gotfr_sec.Domain.Models.{IssuedTokenRecord}
use gotfr_sec.Repositories.View.{View, update, with_token}
use gotfr_sec.Repositories.Lawful.{IsNamed}
use gotfr_sec.Repositories.Json.{Fields}
use gotfr_sec.Repositories.VaultPaths.{
  under, under_cancel, users_root, user_token_path, group_token_path, token_path,
  user_token_path-eq,
}
use gotfr_sec.Repositories.VaultPaths.Apart.{
  user_profile_path-eq, user_groups_path-eq, user_token_path-same, token_path-same,
  profile_index_apart, profile_token_apart, groups_index_apart, groups_token_apart,
  index_definition_apart, index_token_apart, definition_token_apart, token_users_apart,
  group_index_users_apart, group_index_token_apart, definition_index_apart,
}
use gotfr_sec.Repositories.Vault.Client.{Formats}
use gotfr_sec.Repositories.Vault.Documents.{serialize_token}
use gotfr_sec.Repositories.Vault.Contract.{Secrets}
use gotfr_sec.Repositories.Vault.Represents.{
  UserKey, token_key, IsVaultSubject, IsVaultTokenId, RepresentsAs,
}
use gotfr_sec.Repositories.Vault.Put.{update-other, differs_of_not, update-written, update-Shaped}

-- The index after one of its entries was set.
abbrev pub reindex : Text → Text → Bool → (Text → Text → Bool) → Text → Text → Bool
reindex sub id value index i j = if sub == i && id == j then value else index i j

module _ (f : Formats) (path_prefix : Text) where
  -- The secrets agree but at the index of the groups for one token.
  abbrev pub AgreesBut : Text → Secrets → Secrets → Type 0
  AgreesBut id before after =
      (key : Text)
      → ((group : Text) → group_token_path path_prefix group id ≢ key)
      → after key ≡ before key

  pub AgreesBut-update :
      (id group : Text) (o : Option Fields) (secrets : Secrets)
      → AgreesBut id secrets (update secrets (group_token_path path_prefix group id) o)
  AgreesBut-update id group o secrets key apart = update-other secrets _ o key (apart group)

  module _ (index : Text → Text → Bool) (secrets : Secrets) (v : View)
      (h : RepresentsAs f path_prefix index secrets v) where
    -- The indexes of the groups are no part of what is represented.
    pub frame :
        (id : Text) (after : Secrets)
        → IsVaultTokenId id
        → AgreesBut id secrets after
        → RepresentsAs f path_prefix index after v
    frame id after hid agrees =
        let in_users : (rest : Text)
            → after (under (users_root path_prefix) rest)
              ≡ secrets (under (users_root path_prefix) rest) =
          λ rest. agrees _ (λ g. group_index_users_apart path_prefix g id rest) in
        let at_user : (key rest : Text)
            → key ≡ under (users_root path_prefix) rest
            → after key ≡ secrets key =
          λ key rest e. subst (λ k. after k ≡ secrets k) (sym e) (in_users rest) in
        record {
          profiles = λ sub. at_user _ _ (user_profile_path-eq path_prefix sub) ∙ h.profiles sub;
          groups = λ name.
              agrees _ (λ g e.
                definition_index_apart path_prefix name g id hid.segment
                  (differs_of_not _ _ hid.not_definition) (sym e))
              ∙ h.groups name;
          memberships =
              λ sub. rw (at_user _ _ (user_groups_path-eq path_prefix sub)) (h.memberships sub);
          tokens = λ i. agrees _ (λ g. group_index_token_apart path_prefix g id i) ∙ h.tokens i;
          indexed = λ sub i hi.
              ap is_some (at_user _ _ (user_token_path-eq path_prefix sub i)) ∙ h.indexed sub i hi;
          users = λ rest there. h.users rest (sym (ap is_some (in_users rest)) ∙ there);
          profile_of = h.profile_of;
          group_of = h.group_of;
          membership_of = h.membership_of;
          token_of = h.token_of;
        }

    -- The record of a token is written.
    pub put_token :
        (t : IssuedTokenRecord)
        → IsVaultTokenId t.token_id
        → IsVaultSubject t.owner_sub
        → IsNamed t.status
        → RepresentsAs f path_prefix index
            (update secrets (token_path path_prefix t.token_id) (some (serialize_token f t)))
            (with_token t v)
    put_token t hid subject named =
        let path = token_path path_prefix t.token_id in
        let o = some (serialize_token f t) in
        record {
          profiles = λ sub.
              update-other secrets path o _ (λ e. profile_token_apart path_prefix sub _ (sym e))
              ∙ h.profiles sub;
          groups = λ name.
              update-other secrets path o _ (λ e. definition_token_apart path_prefix name _ (sym e))
              ∙ h.groups name;
          memberships = λ sub.
              rw (update-other secrets path o _ (λ e. groups_token_apart path_prefix sub _ (sym e)))
                (h.memberships sub);
          tokens =
              update-written secrets (token_path path_prefix) _ v.token t.token_id (some t)
                (token_path-same path_prefix) h.tokens;
          indexed = λ sub i hi.
              rw
                (update-other secrets path o _ (λ e. index_token_apart path_prefix sub i _ (sym e)))
                (h.indexed sub i hi);
          users =
              update-Shaped f path_prefix secrets path o h.users
                (λ rest e. absurd (token_users_apart path_prefix t.token_id rest e));
          profile_of = h.profile_of;
          group_of = h.group_of;
          membership_of = h.membership_of;
          token_of = λ i u e. elim (Bool-cases (t.token_id == i)) [
            | inl same ↦
                let u_eq : t ≡ u = ground (arith, same, e) in
                subst
                  (λ u.
                    (u.token_id ≡ i)
                    × IsVaultTokenId i
                    × IsVaultSubject u.owner_sub
                    × IsNamed u.status)
                  u_eq
                  (
                    (==_iff t.token_id i).0 same,
                    subst IsVaultTokenId ((==_iff t.token_id i).0 same) hid,
                    subject,
                    named,
                  )
            | inr differs ↦ h.token_of i u (rw differs at e)
          ];
        }

    -- An entry of a user's index is written or deleted.
    pub put_index :
        (sub id : Text) (o : Option Fields)
        → IsVaultTokenId id
        → IsVaultSubject sub
        → RepresentsAs f path_prefix
            (reindex sub id (is_some o) index)
            (update secrets (user_token_path path_prefix sub id) o)
            v
    put_index sub id o hid subject =
        let path = user_token_path path_prefix sub id in
        record {
          profiles = λ i.
              update-other secrets path o _ (λ e.
                profile_index_apart path_prefix i sub id hid.segment
                  (differs_of_not _ _ hid.not_profile) (sym e))
              ∙ h.profiles i;
          groups = λ name.
              update-other secrets path o _ (index_definition_apart path_prefix sub id name)
              ∙ h.groups name;
          memberships = λ i.
              rw
                (update-other secrets path o _ (λ e.
                  groups_index_apart path_prefix i sub id hid.segment
                    (differs_of_not _ _ hid.not_groups) (sym e)))
                (h.memberships i);
          tokens = λ i.
              update-other secrets path o _ (index_token_apart path_prefix sub id i) ∙ h.tokens i;
          indexed = λ i j hj. elim (Bool-cases (path == user_token_path path_prefix i j)) [
            | inl same ↦
                let (sub_eq, id_eq) =
                  user_token_path-same path_prefix sub i id j hid.segment hj.segment
                    ((==_iff _ _).0 same) in
                rw (same, (==_iff sub i).1 sub_eq, (==_iff id j).1 id_eq) refl
            | inr differs ↦
                let other : (sub == i && id == j) ≡ false =
                  ground (arith, differs_of_not _ _ differs, ==_iff sub i, ==_iff id j) in
                rw (differs, other) (h.indexed i j hj)
          ];
          users = update-Shaped f path_prefix secrets path o h.users (λ rest e.
              subst UserKey
                (under_cancel (users_root path_prefix) _ _
                  (sym (user_token_path-eq path_prefix sub id) ∙ e))
                (token_key sub id subject hid));
          profile_of = h.profile_of;
          group_of = h.group_of;
          membership_of = h.membership_of;
          token_of = h.token_of;
        }
