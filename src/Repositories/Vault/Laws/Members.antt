-- ===== src/Repositories/Vault/Laws/Members.antt =====
-- `VaultGroupMembershipRepository.list_for_group` and `count_members`, where the secrets represent a view.
use gotfr_sec.Prelude.{
  ◌↔◌, Member, Member-select, Bool-cases, ==_iff, ℕ, ◌≡◌, refl, sym, ◌∙◌, ap, subst, true,
  Option-cases, inl, inr, some, List, [], ◌∷◌, ◌++◌, ◌==◌, is_some, contains, select, length,
  length-append, arith,
}
use gotfr_sec.Prelude.Text.{Text, text, text_eq, truthy}
use gotfr_sec.Prelude.Text.Order.{sorted_names, contains-sorted_names}
use gotfr_sec.Domain.Errors.{ok}
use gotfr_sec.Domain.Models.{UserGroupMembership}
use gotfr_sec.Repositories.View.{View, find_in, Counts}
use gotfr_sec.Repositories.VaultPaths.{under, users_root, user_groups_path}
use gotfr_sec.Repositories.VaultPaths.Apart.{user_groups_path-eq}
use gotfr_sec.Repositories.Vault.Client.{VaultClient, Formats, IsIso}
use gotfr_sec.Repositories.Vault.Users.{distinct_names, list_known_user_ids}
use gotfr_sec.Repositories.Vault.Memberships.{sort_memberships}
use gotfr_sec.Repositories.Vault.Groups.{list_members, list_for_group, vault_memberships}
use gotfr_sec.Repositories.Vault.Contract.{folder, Lists, IsVault}
use gotfr_sec.Repositories.Vault.Represents.{stored_memberships, Represents}
use gotfr_sec.Repositories.Vault.Sorting.{IsOnce-sort_memberships}
use gotfr_sec.Repositories.Vault.Once.{Member-append, Member-find_in}
use gotfr_sec.Repositories.Vault.Listing.{
  rstrip_slash_folder, contains-distinct_names, Distinct-distinct_names, Distinct-sorted_names,
  contains-select, Distinct-select,
}
use gotfr_sec.Repositories.Vault.Laws.Memberships.{load_memberships_lem, find_in-loaded}

module _ {S : Type 0} (c : VaultClient S) (vault : IsVault c) (f : Formats) (iso : IsIso f)
    (path_prefix : Text) (s : S) (v : View) (h : Represents f path_prefix (vault.secrets s) v) where
  -- The loaded lists one behind the other, of each the memberships in the group.
  abbrev members_at : Text → List Text → List UserGroupMembership
  members_at group [] = []
  members_at group (sub ∷ subs) =
      select (λ m. m.group_name == group) (sort_memberships (h.memberships sub).listed)
      ++ members_at group subs

  list_members_lem :
      (group : Text) (subs : List Text)
      → list_members c f path_prefix group subs s ≡ (ok (members_at group subs), s)
  unfolding list_members
  list_members_lem group [] = refl
  list_members_lem group (sub ∷ subs) =
      rw
        (
          list_members,
          load_memberships_lem c vault f iso path_prefix s v h sub,
          list_members_lem group subs,
        )
        refl

  length-members_at :
      (group : Text) (subs : List Text)
      → length (members_at group subs)
        ≡ length (select (λ sub. is_some (v.membership sub group)) subs)
  length-members_at group [] = refl
  length-members_at group (sub ∷ subs) =
      let held = h.memberships sub in
      let loaded = sort_memberships held.listed in
      let found = select (λ m. m.group_name == group) loaded in
      ground (
        arith,
        length-append found (members_at group subs),
        length-members_at group subs,
        IsOnce-sort_memberships held.listed held.once group,
        find_in-loaded c vault f iso path_prefix s v h sub group,
      )

  there-stored :
      (sub group : Text) (ms : List UserGroupMembership) (m : UserGroupMembership)
      → find_in group ms ≡ some m
      → is_some (stored_memberships f path_prefix sub ms) ≡ true
  unfolding find_in
  there-stored sub group [] m e = absurd (cc)
  there-stored sub group (n ∷ ns) m e = refl

  -- A user with a membership is known.
  known :
      (keys : List Text)
      → Lists (vault.secrets s) (users_root path_prefix) keys
      → (sub group : Text) (m : UserGroupMembership) → v.membership sub group ≡ some m
      → contains sub (distinct_names keys) ≡ true
  known keys lists sub group m e =
      let (_, _, (seg, given)) = h.membership_of sub group m e in
      let held = h.memberships sub in
      let there : is_some (vault.secrets s (user_groups_path path_prefix sub)) ≡ true =
        ap is_some held.document ∙ there-stored sub group held.listed m (held.finds group ∙ e) in
      let there' =
        subst (λ k. is_some (vault.secrets s k) ≡ true) (user_groups_path-eq path_prefix sub)
          there in
      let same = rstrip_slash_folder sub seg in
      subst (λ n. contains n (distinct_names keys) ≡ true) same
        (contains-distinct_names keys (under sub [])
          (lists.complete _ (folder sub (text "groups") seg there')) (ap truthy same ∙ given))

  -- A user's loaded list says which memberships the user has.
  pub Member-loaded :
      (sub group : Text) (m : UserGroupMembership)
      → (Member m (sort_memberships (h.memberships sub).listed) × (m.group_name ≡ group))
        ↔ (v.membership sub group ≡ some m)
  Member-loaded sub group m =
      let held = h.memberships sub in
      let once = IsOnce-sort_memberships held.listed held.once in
      let found = find_in-loaded c vault f iso path_prefix s v h sub group in
      let iff = Member-find_in (sort_memberships held.listed) once m group in
      (λ there. sym found ∙ iff.0 there, λ e. iff.1 (found ∙ e))

  members_at-Member :
      (group : Text) (m : UserGroupMembership) (subs : List Text)
      → Member m (members_at group subs)
      → v.membership m.keycloak_sub group ≡ some m
  members_at-Member group m [] there = absurd there
  members_at-Member group m (sub ∷ subs) there =
      let loaded = sort_memberships (h.memberships sub).listed in
      let test = λ (m : UserGroupMembership). m.group_name == group in
      elim ((Member-append m (select test loaded) (members_at group subs)).0 there) [
        | inl here ↦
            let (among, is) = (Member-select test m loaded).0 here in
            let found = (Member-loaded sub group m).0 (among, (==_iff m.group_name group).0 is) in
            subst (λ i. v.membership i group ≡ some m) (sym (h.membership_of sub group m found).0)
              found
        | inr later ↦ members_at-Member group m subs later
      ]

  Member-members_at :
      (group : Text) (m : UserGroupMembership) (subs : List Text)
      → contains m.keycloak_sub subs ≡ true
      → v.membership m.keycloak_sub group ≡ some m
      → Member m (members_at group subs)
  unfolding contains
  Member-members_at group m [] there e = absurd (cc)
  Member-members_at group m (sub ∷ subs) there e =
      let loaded = sort_memberships (h.memberships sub).listed in
      let test = λ (m : UserGroupMembership). m.group_name == group in
      let split = Member-append m (select test loaded) (members_at group subs) in
      elim (Bool-cases (m.keycloak_sub == sub)) [
        | inl same ↦
            let e' =
              subst (λ i. v.membership i group ≡ some m) ((==_iff m.keycloak_sub sub).0 same) e in
            let (among, is) = (Member-loaded sub group m).1 e' in
            split.1
              (inl ((Member-select test m loaded).1 (among, (==_iff m.group_name group).1 is)))
        | inr differs ↦
            split.1 (inr (Member-members_at group m subs (ground (arith, there, differs)) e))
      ]

  pub list_for_group_lem :
      (group : Text)
      → (listed : List UserGroupMembership) × (list_for_group c f path_prefix group s
          ≡ (ok listed, s))
        × ((m : UserGroupMembership)
            → Member m listed ↔ (v.membership m.keycloak_sub group ≡ some m))
        × Counts (λ sub. v.membership sub group) (length listed)
  unfolding list_known_user_ids list_for_group
  list_for_group_lem group =
      let (keys, reads, lists) = vault.lists (users_root path_prefix) s in
      let subs = sorted_names (distinct_names keys) in
      let member = λ (sub : Text). is_some (v.membership sub group) in
      let among =
        λ (sub : Text) (m : UserGroupMembership) (there : v.membership sub group ≡ some m).
          contains-sorted_names sub (distinct_names keys) ∙ known keys lists sub group m there in
      (
        members_at group subs,
        rw (reads, list_members_lem group subs) refl,
        λ m. (
          members_at-Member group m subs,
          λ e. Member-members_at group m subs (among m.keycloak_sub m e) e,
        ),
        record {
          keys = select member subs;
          distinct =
              Distinct-select member subs
                (Distinct-sorted_names (distinct_names keys) (Distinct-distinct_names keys));
          size = sym (length-members_at group subs);
          exact = λ sub.
              contains-select member sub subs ∙ elim (Option-cases (v.membership sub group)) [
                | inl absent ↦ rw absent ground arith
                | inr (m, there) ↦ rw (among sub m there, there) refl
              ];
        },
      )

  pub count_members_lem :
      (group : Text)
      → (count : ℕ) × ((vault_memberships c f path_prefix).count_members group s ≡ (ok count, s))
        × Counts (λ sub. v.membership sub group) count
  count_members_lem group =
      let (listed, reads, _, counts) = list_for_group_lem group in
      (length listed, rw reads refl, counts)
