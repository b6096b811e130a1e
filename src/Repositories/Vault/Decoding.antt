-- ===== src/Repositories/Vault/Decoding.antt =====
-- What is read of secrets that represent a view: the view.
use gotfr_sec.Prelude.{◌≡◌, refl, ◌∙◌, fun_ext, Option, none, some, List, [], ◌∷◌, list_beq}
use gotfr_sec.Prelude.Text.{Text}
use gotfr_sec.Domain.Errors.{Result, ok}
use gotfr_sec.Domain.Models.{Time, UserGroupMembership}
use gotfr_sec.Repositories.View.{View}
use gotfr_sec.Repositories.Json.{Fields, entry}
use gotfr_sec.Repositories.Vault.Client.{Formats, IsIso}
use gotfr_sec.Repositories.Vault.Memberships.{
  sort_memberships, read_memberships, memberships_in, membership_items, memberships_document,
}
use gotfr_sec.Repositories.Vault.RoundTrip.{
  deserialize_profile-serialize_profile, deserialize_group-serialize_group,
  deserialize_membership-serialize_membership, deserialize_token-serialize_token,
}
use gotfr_sec.Repositories.Vault.Sorting.{find_in-sort_memberships}
use gotfr_sec.Repositories.Vault.Contract.{Secrets}
use gotfr_sec.Repositories.Vault.Represents.{
  written, stored_memberships, decoded, Represents, vault_view,
}

module _ (f : Formats) (iso : IsIso f) (path_prefix : Text) where
  read_memberships-membership_items :
      (now : Time) (ms : List UserGroupMembership)
      → read_memberships f now (membership_items f ms) ≡ ok ms
  unfolding read_memberships membership_items
  read_memberships-membership_items now [] = refl
  read_memberships-membership_items now (m ∷ ms) =
      rw
        (
          deserialize_membership-serialize_membership f iso now m,
          read_memberships-membership_items now ms,
        )
        refl

  -- A list of memberships is read back in the order of their groups.
  pub memberships_in-stored_memberships :
      (now : Time) (sub : Text) (ms : List UserGroupMembership)
      → memberships_in f now (stored_memberships f path_prefix sub ms) ≡ ok (sort_memberships ms)
  unfolding memberships_document entry list_beq sort_memberships
  memberships_in-stored_memberships now sub [] = refl
  memberships_in-stored_memberships now sub (m ∷ ms) =
      read_memberships-membership_items now (sort_memberships (m ∷ ms))

  decoded-written :
      {A : Type 0} (read : Fields → Result A) (write : A → Fields) (o : Option A)
      → ((a : A) → o ≡ some a → read (write a) ≡ ok a)
      → decoded read (written write o) ≡ o
  decoded-written read write none h = refl
  decoded-written read write (some a) h = rw (h a refl) refl

  pub vault_view-Represents :
      (secrets : Secrets) (v : View)
      → Represents f path_prefix secrets v
      → vault_view f path_prefix secrets ≡ v
  vault_view-Represents secrets v h =
      let profiles : (vault_view f path_prefix secrets).profile ≡ v.profile = fun_ext λ sub.
        rw (h.profiles sub) (
          decoded-written _ _ (v.profile sub)
            (λ a _. deserialize_profile-serialize_profile f iso 0 a)) in
      let groups : (vault_view f path_prefix secrets).group ≡ v.group = fun_ext λ name.
        rw (h.groups name) (
          decoded-written _ _ (v.group name)
            (λ a _. deserialize_group-serialize_group f iso 0 a)) in
      let memberships : (vault_view f path_prefix secrets).membership ≡ v.membership =
        fun_ext λ sub. fun_ext λ group.
          let held = h.memberships sub in
          rw (held.document, memberships_in-stored_memberships 0 sub held.listed)
            (find_in-sort_memberships group held.listed ∙ held.finds group) in
      let tokens : (vault_view f path_prefix secrets).token ≡ v.token = fun_ext λ id.
        rw (h.tokens id) (
          decoded-written _ _ (v.token id)
            (λ a e. deserialize_token-serialize_token f iso 0 a (h.token_of id a e).3)) in
      λ i. record {
        profile = profiles i;
        group = groups i;
        membership = memberships i;
        token = tokens i;
      }
