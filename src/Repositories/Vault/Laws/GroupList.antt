-- ===== src/Repositories/Vault/Laws/GroupList.antt =====
-- `VaultGroupRepository.list_all`, where the secrets represent a view.
use gotfr_sec.Prelude.{
  ◌≡◌, refl, sym, ◌∙◌, ap, subst, true, false, Bool-cases, inl, inr, ◌⊎◌, ◌↔◌, Option, none, some,
  List, [], ◌∷◌, is_some, Member, arith,
}
use gotfr_sec.Prelude.Text.{Text, text, truthy}
use gotfr_sec.Domain.Errors.{ok}
use gotfr_sec.Domain.Models.{GroupDefinition}
use gotfr_sec.Repositories.View.{View}
use gotfr_sec.Repositories.VaultPaths.{under, groups_root}
use gotfr_sec.Repositories.VaultPaths.Apart.{group_definition_path-eq}
use gotfr_sec.Repositories.Vault.Client.{VaultClient, Formats, IsIso}
use gotfr_sec.Repositories.Vault.Users.{rstrip_slash}
use gotfr_sec.Repositories.Vault.Groups.{appended, list_groups, vault_groups}
use gotfr_sec.Repositories.Vault.Contract.{folder, Lists, IsVault}
use gotfr_sec.Repositories.Vault.Documents.{serialize_group}
use gotfr_sec.Repositories.Vault.Represents.{written, IsVaultSubject, Represents}
use gotfr_sec.Repositories.Vault.Listing.{rstrip_slash_folder}
use gotfr_sec.Repositories.Vault.Once.{Member-append}
use gotfr_sec.Repositories.Vault.Laws.Profiles.{get-group}

-- What the loop of `list_all` has found at its end.
abbrev groups_at : View → List GroupDefinition → List Text → List GroupDefinition
groups_at v groups [] = groups
groups_at v groups (key ∷ keys) = elim (truthy (rstrip_slash key)) [
  | true ↦ groups_at v (appended (v.group (rstrip_slash key)) groups) keys
  | false ↦ groups_at v groups keys
]

Member-appended :
    (g : GroupDefinition) (o : Option GroupDefinition) (groups : List GroupDefinition)
    → Member g (appended o groups) ↔ (Member g groups ⊎ (o ≡ some g))
Member-appended g none groups = (λ m. inl m, elim [ inl m ↦ m | inr e ↦ absurd (cc) ])
Member-appended g (some d) groups = (
  λ m. elim ((Member-append g groups (d ∷ [])).0 m) [
    | inl before ↦ inl before
    | inr last ↦ elim last [ inl e ↦ inr (ap some (sym e)) | inr m' ↦ absurd m' ]
  ],
  elim [
    | inl m ↦ (Member-append g groups (d ∷ [])).1 (inl m)
    | inr e ↦ (Member-append g groups (d ∷ [])).1 (inr (inl (ground arith)))
  ],
)

-- A listed group was found before, or under one of the keys.
groups_at-Member :
    (v : View) (g : GroupDefinition) (groups : List GroupDefinition) (keys : List Text)
    → Member g (groups_at v groups keys)
    → Member g groups ⊎ ((name : Text) × (v.group name ≡ some g))
groups_at-Member v g groups [] m = inl m
groups_at-Member v g groups (key ∷ keys) m = elim (Bool-cases (truthy (rstrip_slash key))) [
  | inl given ↦
      elim (groups_at-Member v g (appended (v.group (rstrip_slash key)) groups) keys
        (rw (groups_at, given) at m)) [
          | inl m' ↦ elim ((Member-appended g (v.group (rstrip_slash key)) groups).0 m') [
            | inl before ↦ inl before
            | inr e ↦ inr (rstrip_slash key, e)
          ]
          | inr found ↦ inr found
        ]
  | inr empty ↦ groups_at-Member v g groups keys (rw (groups_at, empty) at m)
]

Member-kept :
    (v : View) (g : GroupDefinition) (groups : List GroupDefinition) (keys : List Text)
    → Member g groups
    → Member g (groups_at v groups keys)
Member-kept v g groups [] m = m
Member-kept v g groups (key ∷ keys) m = elim (Bool-cases (truthy (rstrip_slash key))) [
  | inl given ↦
      rw (groups_at, given)
        (Member-kept v g (appended (v.group (rstrip_slash key)) groups) keys
          ((Member-appended g (v.group (rstrip_slash key)) groups).1 (inl m)))
  | inr empty ↦ rw (groups_at, empty) (Member-kept v g groups keys m)
]

Member-groups_at :
    (v : View) (g : GroupDefinition) (groups : List GroupDefinition) (keys : List Text) (key : Text)
    → Member key keys
    → truthy (rstrip_slash key) ≡ true
    → v.group (rstrip_slash key) ≡ some g
    → Member g (groups_at v groups keys)
Member-groups_at v g groups [] key m given e = absurd m
Member-groups_at v g groups (k ∷ keys) key (inl is) given e =
    let given' = subst (λ k. truthy (rstrip_slash k) ≡ true) is given in
    let e' = subst (λ k. v.group (rstrip_slash k) ≡ some g) is e in
    rw (groups_at, given')
      (Member-kept v g (appended (v.group (rstrip_slash k)) groups) keys
        ((Member-appended g (v.group (rstrip_slash k)) groups).1 (inr e')))
Member-groups_at v g groups (k ∷ keys) key (inr m) given e =
    elim (Bool-cases (truthy (rstrip_slash k))) [
      | inl named ↦
          rw (groups_at, named)
            (Member-groups_at v g (appended (v.group (rstrip_slash k)) groups) keys key m given e)
      | inr empty ↦ rw (groups_at, empty) (Member-groups_at v g groups keys key m given e)
    ]

module _ {S : Type 0} (c : VaultClient S) (vault : IsVault c) (f : Formats) (iso : IsIso f)
    (path_prefix : Text) (s : S) (v : View) (h : Represents f path_prefix (vault.secrets s) v) where
  list_groups_lem :
      (groups : List GroupDefinition) (keys : List Text)
      → list_groups c f path_prefix groups keys s ≡ (ok (groups_at v groups keys), s)
  unfolding list_groups
  list_groups_lem groups [] = refl
  list_groups_lem groups (key ∷ keys) = elim (Bool-cases (truthy (rstrip_slash key))) [
    | inl given ↦
        rw
          (
            groups_at,
            list_groups,
            given,
            get-group c vault f iso path_prefix s v h (rstrip_slash key),
          )
          (list_groups_lem (appended (v.group (rstrip_slash key)) groups) keys)
    | inr empty ↦ rw (groups_at, list_groups, empty) (list_groups_lem groups keys)
  ]

  -- A stored group has its folder in the listing.
  listed_folder :
      (keys : List Text)
      → Lists (vault.secrets s) (groups_root path_prefix) keys
      → (g : GroupDefinition) → IsVaultSubject g.name
      → v.group g.name ≡ some g
      → Member (under g.name []) keys
  listed_folder keys lists g (seg, given) e =
      let there : is_some (written (serialize_group f) (v.group g.name)) ≡ true = rw e refl in
      lists.complete _ (
        folder g.name (text "definition") seg (
          subst (λ k. is_some (vault.secrets s k) ≡ true)
            (group_definition_path-eq path_prefix g.name) (ap is_some (h.groups g.name) ∙ there)))

  pub list_all_lem :
      (listed : List GroupDefinition) × ((vault_groups c f path_prefix).list_all s ≡ (ok listed, s))
      × ((g : GroupDefinition) → Member g listed → v.group g.name ≡ some g)
      × ((g : GroupDefinition) → IsVaultSubject g.name → v.group g.name ≡ some g → Member g listed)
  list_all_lem =
      let (keys, reads, lists) = vault.lists (groups_root path_prefix) s in
      (
        groups_at v [] keys,
        rw reads (list_groups_lem [] keys),
        λ g m. elim (groups_at-Member v g [] keys m) [
          | inl none_before ↦ absurd none_before
          | inr (name, e) ↦ ap v.group (h.group_of name g e) ∙ e
        ],
        λ g named e.
            let same = rstrip_slash_folder g.name named.0 in
            Member-groups_at v g [] keys (under g.name []) (listed_folder keys lists g named e)
              (ap truthy same ∙ named.1) (ap v.group same ∙ e),
      )
