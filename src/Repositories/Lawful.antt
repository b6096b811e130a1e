-- ===== src/Repositories/Lawful.antt =====
-- The contract of a bundle of stores: each method acts on the view of the state as on four maps.
-- The services are proved against it, and each implementation of the stores fills it.
use gotfr_sec.Prelude.{ℕ, ◌≡◌, ◌↔◌, some, List, Member, is_some, length}
use gotfr_sec.Prelude.Text.{Text}
use gotfr_sec.Domain.Errors.{Result, ok}
use gotfr_sec.Domain.Models.{
  TokenStatus, unrecognised, GroupDefinition, UserProfile, UserGroupMembership, IssuedTokenRecord,
}
use gotfr_sec.Repositories.View.{
  View, with_profile, with_group, without_group, with_membership, without_membership, with_token,
  find_in, Counts,
}
use gotfr_sec.Repositories.Interfaces.{RepositoryBundle}

-- How the states of a store are read: which are valid, the view of each, which texts may name a user
-- and a token, and under which names a group is listed.
pub record Reading (S : Type 0) : Type 1 where
  pub IsValid : S → Type 0
  pub view : S → View
  pub IsSubject : Text → Type 0
  pub IsTokenId : Text → Type 0
  pub IsGroupKey : Text → Type 0

-- A status that the services give.
abbrev pub IsNamed : TokenStatus → Type 0
IsNamed (unrecognised name) = ⊥
IsNamed status = Unit

module _ {S : Type 0} (reading : Reading S) where
  open reading use {IsValid, view, IsSubject, IsTokenId, IsGroupKey}

  -- A call that returns `a` and leaves a valid state with the view `v`.
  pub record Yields {A : Type 0} (outcome : Result A × S) (a : A) (v : View) : Type 0 where
    pub returned : outcome.0 ≡ ok a
    pub valid : IsValid outcome.1
    pub seen : view outcome.1 ≡ v

  pub Yields-eq :
      {A : Type 0} {outcome : Result A × S} {a : A} {v : View}
      → Yields outcome a v
      → outcome ≡ (ok a, outcome.1)
  Yields-eq {outcome = outcome} y = λ i. (y.returned i, outcome.1)

  -- A call that reads all groups: every one that is listed is stored under its name, and every one
  -- that is stored under a name for listings is listed.
  pub record ListsGroups (outcome : Result (List GroupDefinition) × S) (s : S) : Type 0 where
    pub listed : List GroupDefinition
    pub reads : outcome ≡ (ok listed, s)
    pub sound : (g : GroupDefinition) → Member g listed → (view s).group g.name ≡ some g
    pub complete :
        (g : GroupDefinition) → IsGroupKey g.name → (view s).group g.name ≡ some g → Member g listed

  -- A call that reads the memberships of a user.
  pub record ListsUser (outcome : Result (List UserGroupMembership) × S) (s : S) (sub : Text)
      : Type 0 where
    pub listed : List UserGroupMembership
    pub reads : outcome ≡ (ok listed, s)
    pub finds : (group : Text) → find_in group listed ≡ (view s).membership sub group
    pub exact :
        (m : UserGroupMembership)
        → Member m listed ↔ ((view s).membership sub m.group_name ≡ some m)

  -- A call that reads the memberships of a group, each member once.
  pub record ListsGroup (outcome : Result (List UserGroupMembership) × S) (s : S) (group : Text)
      : Type 0 where
    pub listed : List UserGroupMembership
    pub reads : outcome ≡ (ok listed, s)
    pub exact :
        (m : UserGroupMembership)
        → Member m listed ↔ ((view s).membership m.keycloak_sub group ≡ some m)
    pub counts : Counts (λ sub. (view s).membership sub group) (length listed)

  -- A call that counts the members of a group.
  pub record CountsGroup (outcome : Result ℕ × S) (s : S) (group : Text) : Type 0 where
    pub count : ℕ
    pub reads : outcome ≡ (ok count, s)
    pub counts : Counts (λ sub. (view s).membership sub group) count

  -- A call that reads the tokens of an owner.
  pub record ListsTokens (outcome : Result (List IssuedTokenRecord) × S) (s : S) (sub : Text)
      : Type 0 where
    pub listed : List IssuedTokenRecord
    pub reads : outcome ≡ (ok listed, s)
    pub exact :
        (t : IssuedTokenRecord)
        → Member t listed ↔ (((view s).token t.token_id ≡ some t) × (t.owner_sub ≡ sub))

  pub record IsLawful (r : RepositoryBundle S) : Type 0 where
    -- every entry stands under its own key
    pub profile_key :
        (s : S)
        → IsValid s
        → (sub : Text) (p : UserProfile) → (view s).profile sub ≡ some p
        → p.keycloak_sub ≡ sub
    pub profile_subject :
        (s : S)
        → IsValid s
        → (sub : Text) (p : UserProfile) → (view s).profile sub ≡ some p
        → IsSubject sub
    pub group_key :
        (s : S)
        → IsValid s
        → (name : Text) (g : GroupDefinition) → (view s).group name ≡ some g
        → g.name ≡ name
    pub membership_key :
        (s : S)
        → IsValid s
        → (sub group : Text) (m : UserGroupMembership) → (view s).membership sub group ≡ some m
        → (m.keycloak_sub ≡ sub) × (m.group_name ≡ group)
    pub token_key :
        (s : S)
        → IsValid s
        → (id : Text) (t : IssuedTokenRecord) → (view s).token id ≡ some t
        → (t.token_id ≡ id) × IsTokenId id × IsSubject t.owner_sub
    -- reads change nothing
    pub profile_get :
        (s : S)
        → IsValid s
        → (sub : Text) → r.user_profiles.get sub s ≡ (ok ((view s).profile sub), s)
    pub profile_is_registered :
        (s : S)
        → IsValid s
        → (sub : Text)
        → r.user_profiles.is_registered sub s ≡ (ok (is_some ((view s).profile sub)), s)
    pub group_get :
        (s : S) → IsValid s → (name : Text) → r.groups.get name s ≡ (ok ((view s).group name), s)
    pub group_list : (s : S) → IsValid s → ListsGroups (r.groups.list_all s) s
    pub membership_has :
        (s : S)
        → IsValid s
        → (sub group : Text)
        → r.memberships.has_membership sub group s
          ≡ (ok (is_some ((view s).membership sub group)), s)
    pub membership_list :
        (s : S) → IsValid s → (sub : Text) → ListsUser (r.memberships.list_for_user sub s) s sub
    pub membership_list_group :
        (s : S)
        → IsValid s
        → (group : Text) → ListsGroup (r.memberships.list_for_group group s) s group
    pub membership_count :
        (s : S)
        → IsValid s
        → (group : Text) → CountsGroup (r.memberships.count_members group s) s group
    pub token_get :
        (s : S) → IsValid s → (id : Text) → r.tokens.get id s ≡ (ok ((view s).token id), s)
    pub token_list :
        (s : S) → IsValid s → (sub : Text) → ListsTokens (r.tokens.list_for_user sub s) s sub
    -- writes change one entry
    pub profile_upsert :
        (s : S)
        → IsValid s
        → (p : UserProfile) → IsSubject p.keycloak_sub
        → Yields (r.user_profiles.upsert p s) p (with_profile p (view s))
    pub group_upsert :
        (s : S)
        → IsValid s
        → (g : GroupDefinition) → Yields (r.groups.upsert g s) g (with_group g (view s))
    pub group_delete :
        (s : S)
        → IsValid s
        → (name : Text)
        → Yields
            (r.groups.delete name s)
            (is_some ((view s).group name))
            (without_group name (view s))
    pub membership_add :
        (s : S)
        → IsValid s
        → (m : UserGroupMembership) → IsSubject m.keycloak_sub
        → Yields (r.memberships.add m s) m (with_membership m (view s))
    pub membership_remove :
        (s : S)
        → IsValid s
        → (sub group : Text)
        → Yields
            (r.memberships.remove sub group s)
            (is_some ((view s).membership sub group))
            (without_membership sub group (view s))
    pub token_upsert :
        (s : S)
        → IsValid s
        → (t : IssuedTokenRecord) → IsTokenId t.token_id
        → IsSubject t.owner_sub
        → IsNamed t.status
        → Yields (r.tokens.upsert t s) t (with_token t (view s))
