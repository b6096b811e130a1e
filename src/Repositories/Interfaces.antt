-- ===== src/Repositories/Interfaces.antt =====
-- app/repositories/interfaces.py: the protocols of the four stores, and the bundle of them that
-- app/bootstrap.py hands to the routes. A call may raise; what was written before stays written.
use gotfr_sec.Prelude.{ℕ, Bool, Option, List}
use gotfr_sec.Prelude.Text.{Text}
use gotfr_sec.Domain.Errors.{Result}
use gotfr_sec.Domain.Models.{GroupDefinition, UserProfile, UserGroupMembership, IssuedTokenRecord}

-- A method of a store with the state `S`.
abbrev pub Call : Type 0 → Type 0 → Type 0
Call S A = S → Result A × S

pub record UserProfileRepository (S : Type 0) : Type 0 where
  pub get : Text → Call S (Option UserProfile)
  pub upsert : UserProfile → Call S UserProfile
  pub is_registered : Text → Call S Bool

pub record GroupRepository (S : Type 0) : Type 0 where
  pub get : Text → Call S (Option GroupDefinition)
  pub upsert : GroupDefinition → Call S GroupDefinition
  pub list_all : Call S (List GroupDefinition)
  pub delete : Text → Call S Bool

pub record GroupMembershipRepository (S : Type 0) : Type 0 where
  pub add : UserGroupMembership → Call S UserGroupMembership
  pub remove : Text → Text → Call S Bool
  pub has_membership : Text → Text → Call S Bool
  pub list_for_user : Text → Call S (List UserGroupMembership)
  pub list_for_group : Text → Call S (List UserGroupMembership)
  pub count_members : Text → Call S ℕ

pub record TokenRepository (S : Type 0) : Type 0 where
  pub get : Text → Call S (Option IssuedTokenRecord)
  pub upsert : IssuedTokenRecord → Call S IssuedTokenRecord
  pub list_for_user : Text → Call S (List IssuedTokenRecord)

-- The audit sink is not part of it: a world holds its events (Exec.antt).
pub record RepositoryBundle (S : Type 0) : Type 0 where
  pub user_profiles : UserProfileRepository S
  pub groups : GroupRepository S
  pub memberships : GroupMembershipRepository S
  pub tokens : TokenRepository S
