-- ===== src/Repositories/Vault/Lawful.antt =====
-- The stores over Vault keep the contract of the stores.
use gotfr_sec.Prelude.{◌≡◌, refl, sym, ap, ◌∙◌, subst, true, false, none, [], is_some}
use gotfr_sec.Prelude.Text.{Text}
use gotfr_sec.Domain.Errors.{Result}
use gotfr_sec.Repositories.View.{View, find_in}
use gotfr_sec.Repositories.Lawful.{Reading, Yields, IsLawful}
use gotfr_sec.Repositories.Vault.Client.{VaultClient, Formats, IsIso}
use gotfr_sec.Repositories.Vault.Memberships.{sort_memberships}
use gotfr_sec.Repositories.Vault.Tokens.{vault}
use gotfr_sec.Repositories.Vault.Contract.{IsVault}
use gotfr_sec.Repositories.Vault.Represents.{IsVaultSubject, IsVaultTokenId, Represents, vault_view}
use gotfr_sec.Repositories.Vault.Decoding.{vault_view-Represents}
use gotfr_sec.Repositories.Vault.Laws.Profiles.{
  Stores, get-profile, is_registered-profile, get-group, upsert-profile, upsert-group, delete-group,
}
use gotfr_sec.Repositories.Vault.Laws.Memberships.{
  load_memberships_lem, find_in-loaded, has_membership_lem, add_to_vault_lem, remove_from_vault_lem,
}
use gotfr_sec.Repositories.Vault.Laws.Members.{Member-loaded, list_for_group_lem, count_members_lem}
use gotfr_sec.Repositories.Vault.Laws.GroupList.{list_all_lem}
use gotfr_sec.Repositories.Vault.Laws.Tokens.{get_token_lem, upsert_token_lem}
use gotfr_sec.Repositories.Vault.Laws.TokenList.{list_for_user_lem}

module _ {S : Type 0} (c : VaultClient S) (is_vault : IsVault c) (f : Formats) (iso : IsIso f)
    (path_prefix : Text) where
  -- A state is valid where its secrets represent what is read of them.
  abbrev pub vault_reading : Reading S
  vault_reading = record {
    IsValid = λ s.
        Represents f path_prefix (is_vault.secrets s)
          (vault_view f path_prefix (is_vault.secrets s));
    view = λ s. vault_view f path_prefix (is_vault.secrets s);
    IsSubject = IsVaultSubject;
    IsTokenId = IsVaultTokenId;
    IsGroupKey = IsVaultSubject;
  }

  Yields-Stores :
      {A : Type 0} {outcome : Result A × S} {a : A} {v : View}
      → Stores c is_vault f iso path_prefix outcome a v
      → Yields vault_reading outcome a v
  Yields-Stores {outcome = outcome} {v = v} stores =
      let seen =
        vault_view-Represents f iso path_prefix (is_vault.secrets outcome.1) v stores.represents in
      record {
        returned = stores.returned;
        valid =
            subst (Represents f path_prefix (is_vault.secrets outcome.1)) (sym seen)
              stores.represents;
        seen = seen;
      }

  -- The stores over Vault read and write the four maps that their secrets represent, each method as
  -- the contract of the stores demands, for a Vault that keeps what is written and lists it, and
  -- texts of times that read back.
  pub vault-IsLawful : IsLawful vault_reading (vault c f path_prefix)
  vault-IsLawful = record {
    profile_key = λ s h sub p e. (h.profile_of sub p e).0;
    profile_subject = λ s h sub p e. (h.profile_of sub p e).1;
    group_key = λ s h name g e. h.group_of name g e;
    membership_key = λ s h sub group m e. let (a, b, _) = h.membership_of sub group m e in (a, b);
    token_key = λ s h id t e. let (a, b, d, _) = h.token_of id t e in (a, b, d);
    profile_get = λ s h sub. get-profile c is_vault f iso path_prefix s _ h sub;
    profile_is_registered = λ s h sub. is_registered-profile c is_vault f iso path_prefix s _ h sub;
    group_get = λ s h name. get-group c is_vault f iso path_prefix s _ h name;
    group_list = λ s h.
        let (listed, reads, sound, complete) = list_all_lem c is_vault f iso path_prefix s _ h in
        record { listed = listed; reads = reads; sound = sound; complete = complete };
    membership_has =
        λ s h sub group. has_membership_lem c is_vault f iso path_prefix s _ h sub group;
    membership_list = λ s h sub. record {
      listed = sort_memberships (h.memberships sub).listed;
      reads = load_memberships_lem c is_vault f iso path_prefix s _ h sub;
      finds = find_in-loaded c is_vault f iso path_prefix s _ h sub;
      exact = λ m.
          let iff = Member-loaded c is_vault f iso path_prefix s _ h sub m.group_name m in
          (λ there. iff.0 (there, refl), λ e. (iff.1 e).0);
    };
    membership_list_group = λ s h group.
        let (listed, reads, exact, counts) =
          list_for_group_lem c is_vault f iso path_prefix s _ h group in
        record { listed = listed; reads = reads; exact = exact; counts = counts };
    membership_count = λ s h group.
        let (count, reads, counts) = count_members_lem c is_vault f iso path_prefix s _ h group in
        record { count = count; reads = reads; counts = counts };
    token_get = λ s h id. get_token_lem c is_vault f iso path_prefix s _ h id;
    token_list = λ s h sub.
        let (listed, reads, exact) = list_for_user_lem c is_vault f iso path_prefix s _ h sub in
        record { listed = listed; reads = reads; exact = exact };
    profile_upsert = λ s h p subject.
        Yields-Stores (upsert-profile c is_vault f iso path_prefix s _ h p subject);
    group_upsert = λ s h g. Yields-Stores (upsert-group c is_vault f iso path_prefix s _ h g);
    group_delete = λ s h name. Yields-Stores (delete-group c is_vault f iso path_prefix s _ h name);
    membership_add = λ s h m subject.
        Yields-Stores (add_to_vault_lem c is_vault f iso path_prefix s _ h m subject);
    membership_remove = λ s h sub group.
        Yields-Stores (remove_from_vault_lem c is_vault f iso path_prefix s _ h sub group);
    token_upsert = λ s h t id subject named.
        Yields-Stores (upsert_token_lem c is_vault f iso path_prefix s _ h t id subject named);
  }

  -- A Vault without secrets is valid, and nothing is stored in it.
  pub empty-IsValid :
      (s : S) → ((key : Text) → is_vault.secrets s key ≡ none) → vault_reading.IsValid s
  unfolding find_in
  empty-IsValid s empty =
      let no_view : View = record {
        profile = λ sub. none;
        group = λ name. none;
        membership = λ sub group. none;
        token = λ id. none;
      } in
      let represents : Represents f path_prefix (is_vault.secrets s) no_view = record {
        profiles = λ sub. empty _;
        groups = λ name. empty _;
        memberships = λ sub. record {
          listed = [];
          document = empty _;
          finds = λ group. refl;
          once = λ group. refl;
          own = tt;
        };
        tokens = λ id. empty _;
        indexed = λ sub id h. ap is_some (empty _);
        users = λ rest there. absurd (differs (sym (ap is_some (empty _)) ∙ there));
        profile_of = λ sub p e. absurd (cc);
        group_of = λ name g e. absurd (cc);
        membership_of = λ sub group m e. absurd (cc);
        token_of = λ id t e. absurd (cc);
      } in
      subst (Represents f path_prefix (is_vault.secrets s))
        (sym (vault_view-Represents f iso path_prefix (is_vault.secrets s) no_view represents))
        represents
    where
      differs : false ≡ true → ⊥
      differs e = absurd (cc)
