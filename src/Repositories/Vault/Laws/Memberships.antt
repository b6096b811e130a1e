-- ===== src/Repositories/Vault/Laws/Memberships.antt =====
-- The calls of `VaultGroupMembershipRepository` on one user's list, where the secrets represent a
-- view.
use gotfr_sec.Prelude.{
  ◌≡◌, refl, sym, ◌∙◌, ap, fun_ext, subst, Bool-cases, Option-cases, inl, inr, true, false, not,
  nat_beq, Option, none, some, List, [], ◌∷◌, ◌++◌, ◌==◌, ==_iff, is_some, length, All-append,
  arith, if◌then◌else◌,
}
use gotfr_sec.Prelude.Text.{Text, text_eq}
use gotfr_sec.Domain.Errors.{ok}
use gotfr_sec.Domain.Models.{UserGroupMembership}
use gotfr_sec.Repositories.View.{
  View, find_in, update, update₂, with_membership, without_membership,
}
use gotfr_sec.Repositories.VaultPaths.{user_groups_path}
use gotfr_sec.Repositories.Vault.Client.{VaultClient, Formats, IsIso}
use gotfr_sec.Repositories.Vault.Memberships.{sort_memberships, memberships_document}
use gotfr_sec.Repositories.Vault.Groups.{
  load_memberships, store_memberships, add_to_vault, remove_from_vault, is_found, vault_memberships,
}
use gotfr_sec.Repositories.Vault.Contract.{IsVault}
use gotfr_sec.Repositories.Vault.Represents.{IsVaultSubject, stored_memberships, Holds, Represents}
use gotfr_sec.Repositories.Vault.Sorting.{
  without, find_in-sort_memberships, All-sort_memberships, All-select, IsOnce-sort_memberships,
  find_in-without, IsOnce-without, find_in-append, IsOnce-append, length-without,
}
use gotfr_sec.Repositories.Vault.Decoding.{memberships_in-stored_memberships}
use gotfr_sec.Repositories.Vault.Put.{put_memberships}
use gotfr_sec.Repositories.Vault.Laws.Profiles.{Stores}

is_found-is_some : (o : Option UserGroupMembership) → is_found o ≡ is_some o
is_found-is_some none = refl
is_found-is_some (some m) = refl

-- A view with one user's memberships replaced at one group.
with_one :
    (v : View) (sub group : Text) (value : Option UserGroupMembership)
    → (λ i j. if sub == i then update (v.membership sub) group value j else v.membership i j)
      ≡ update₂ v.membership sub group value
with_one v sub group value = fun_ext λ i. fun_ext λ j. elim (Bool-cases (sub == i)) [
  | inl same ↦ rw (same, (==_iff sub i).0 same) refl
  | inr differs ↦ rw differs refl
]

without_absent :
    (v : View) (sub group : Text)
    → v.membership sub group ≡ none
    → v ≡ without_membership sub group v
without_absent v sub group absent =
    let same : v.membership ≡ update₂ v.membership sub group none = fun_ext λ i. fun_ext λ j.
      elim (Bool-cases (sub == i)) [
        | inl i_eq ↦ elim (Bool-cases (group == j)) [
          | inl j_eq ↦
              rw (i_eq, j_eq, sym ((==_iff sub i).0 i_eq), sym ((==_iff group j).0 j_eq)) absent
          | inr j_ne ↦ rw (i_eq, j_ne) refl
        ]
        | inr i_ne ↦ rw i_ne refl
      ] in
    λ k. record v { membership = same k }

module _ {S : Type 0} (c : VaultClient S) (vault : IsVault c) (f : Formats) (iso : IsIso f)
    (path_prefix : Text) where
  -- Storing a list replaces what stands under the user's key.
  store_memberships_lem :
      (sub : Text) (ms : List UserGroupMembership) (s : S)
      → ((store_memberships c f path_prefix sub ms s).0 ≡ ok tt)
        × (vault.secrets (store_memberships c f path_prefix sub ms s).1
            ≡ update
                (vault.secrets s)
                (user_groups_path path_prefix sub)
                (stored_memberships f path_prefix sub ms))
  unfolding store_memberships
  store_memberships_lem sub [] s =
      let path = user_groups_path path_prefix sub in
      (rw (vault.deletes path s) refl, rw (vault.deletes path s) (vault.deleted path s))
  store_memberships_lem sub (m ∷ ms) s =
      let path = user_groups_path path_prefix sub in
      let doc = memberships_document f sub (m ∷ ms) in
      (vault.writes path doc s, vault.written path doc s)

  module _ (s : S) (v : View) (h : Represents f path_prefix (vault.secrets s) v) where
    pub load_memberships_lem :
        (sub : Text)
        → load_memberships c f path_prefix sub s
          ≡ (ok (sort_memberships (h.memberships sub).listed), s)
    unfolding load_memberships
    load_memberships_lem sub =
        let held = h.memberships sub in
        rw
          (
            vault.read (user_groups_path path_prefix sub) s,
            held.document,
            memberships_in-stored_memberships f iso path_prefix (c.now s) sub held.listed,
          )
          refl

    pub find_in-loaded :
        (sub group : Text)
        → find_in group (sort_memberships (h.memberships sub).listed) ≡ v.membership sub group
    find_in-loaded sub group =
        let held = h.memberships sub in
        find_in-sort_memberships group held.listed ∙ held.finds group

    pub has_membership_lem :
        (sub group : Text)
        → (vault_memberships c f path_prefix).has_membership sub group s
          ≡ (ok (is_some (v.membership sub group)), s)
    has_membership_lem sub group =
        rw
          (
            load_memberships_lem sub,
            find_in-loaded sub group,
            is_found-is_some (v.membership sub group),
          )
          refl

    -- The loaded list without a group.
    Holds-without :
        (sub group : Text)
        → Holds f path_prefix
            (stored_memberships f path_prefix sub
              (without group (sort_memberships (h.memberships sub).listed)))
            sub
            (update (v.membership sub) group none)
    Holds-without sub group =
        let held = h.memberships sub in
        let loaded = sort_memberships held.listed in
        record {
          listed = without group loaded;
          document = refl;
          finds = λ g. rw (find_in-without g group loaded, find_in-loaded sub g) refl;
          once = IsOnce-without group loaded (IsOnce-sort_memberships held.listed held.once);
          own = All-select _ _ loaded (All-sort_memberships _ held.listed held.own);
        }

    -- The loaded list with the membership that takes the place of one in its group.
    Holds-added :
        (m : UserGroupMembership)
        → Holds f path_prefix
            (stored_memberships f path_prefix m.keycloak_sub (
              without m.group_name (sort_memberships (h.memberships m.keycloak_sub).listed)
              ++ m ∷ []))
            m.keycloak_sub
            (update (v.membership m.keycloak_sub) m.group_name (some m))
    unfolding Holds-without
    Holds-added m =
        let rest = Holds-without m.keycloak_sub m.group_name in
        record {
          listed = rest.listed ++ m ∷ [];
          document = refl;
          finds = λ g.
              find_in-append g m rest.listed ∙ ground (arith, rest.finds g, ==_iff m.group_name g);
          once =
              IsOnce-append m rest.listed
                (ground (arith, rest.finds m.group_name, ==_iff m.group_name m.group_name))
                rest.once;
          own = All-append _ rest.listed (m ∷ []) rest.own (refl, tt);
        }

    put-one :
        (sub group : Text) (value : Option UserGroupMembership) (ms : List UserGroupMembership)
        → IsVaultSubject sub
        → Holds f path_prefix
            (stored_memberships f path_prefix sub ms)
            sub
            (update (v.membership sub) group value)
        → ((m : UserGroupMembership)
            → value ≡ some m
            → (m.keycloak_sub ≡ sub) × (m.group_name ≡ group))
        → Represents f path_prefix
            (vault.secrets (store_memberships c f path_prefix sub ms s).1)
            (record v { membership = update₂ v.membership sub group value })
    put-one sub group value ms subject holds keyed =
        let after =
          update (vault.secrets s) (user_groups_path path_prefix sub)
            (stored_memberships f path_prefix sub ms) in
        rw (store_memberships_lem sub ms s).1 (
          subst (λ of. Represents f path_prefix after (record v { membership = of }))
            (with_one v sub group value)
            (put_memberships f path_prefix (vault.secrets s) v sub
              (update (v.membership sub) group value) _ subject holds
              (λ j m e. elim (Bool-cases (group == j)) [
                | inl same ↦ let (a, b) = keyed m (rw same at e) in (a, b ∙ (==_iff group j).0 same)
                | inr differs ↦ let (a, b, _) = h.membership_of sub j m (rw differs at e) in (a, b)
              ])
              h))

    pub add_to_vault_lem :
        (m : UserGroupMembership)
        → IsVaultSubject m.keycloak_sub
        → Stores c vault f iso path_prefix
            ((vault_memberships c f path_prefix).add m s)
            m
            (with_membership m v)
    unfolding add_to_vault
    add_to_vault_lem m subject =
        let ms =
          without m.group_name (sort_memberships (h.memberships m.keycloak_sub).listed) ++ m ∷ [] in
        let (returned, _) = store_memberships_lem m.keycloak_sub ms s in
        record {
          returned = rw (load_memberships_lem m.keycloak_sub, returned) refl;
          represents =
              rw (load_memberships_lem m.keycloak_sub, returned)
                (put-one m.keycloak_sub m.group_name (some m) ms subject (Holds-added m)
                  (λ k e. ground arith));
        }

    pub remove_from_vault_lem :
        (sub group : Text)
        → Stores c vault f iso path_prefix
            ((vault_memberships c f path_prefix).remove sub group s)
            (is_some (v.membership sub group))
            (without_membership sub group v)
    unfolding remove_from_vault
    remove_from_vault_lem sub group =
        let loaded = sort_memberships (h.memberships sub).listed in
        let ms = without group loaded in
        let (returned, _) = store_memberships_lem sub ms s in
        let shrunk : nat_beq (length ms) (length loaded) ≡ not (is_some (v.membership sub group)) =
          length-without group loaded ∙ ap (λ o. not (is_some o)) (find_in-loaded sub group) in
        elim (Option-cases (v.membership sub group)) [
          | inl absent ↦
              let kept : nat_beq (length ms) (length loaded) ≡ true =
                shrunk ∙ ap (λ o. not (is_some o)) absent in
              record {
                returned = rw (load_memberships_lem sub, kept, absent) refl;
                represents =
                    rw (load_memberships_lem sub, kept)
                      (subst (Represents f path_prefix (vault.secrets s))
                        (without_absent v sub group absent) h);
              }
          | inr (m, there) ↦
              let changed : nat_beq (length ms) (length loaded) ≡ false =
                shrunk ∙ ap (λ o. not (is_some o)) there in
              record {
                returned = rw (load_memberships_lem sub, changed, returned, there) refl;
                represents =
                    rw (load_memberships_lem sub, changed, returned)
                      (put-one sub group none ms (h.membership_of sub group m there).2
                        (Holds-without sub group) (λ k e. absurd (cc)));
              }
        ]
