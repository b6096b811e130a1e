-- ===== src/Repositories/InMemory.antt =====
-- app/repositories/in_memory.py: the four stores as dictionaries.
pub mod Members
pub mod Laws
use gotfr_sec.Prelude.{List, [], ◌==◌, length, is_some, select}
use gotfr_sec.Prelude.Text.{Text, text_eq, text_pair_eq}
use gotfr_sec.Domain.Errors.{ok}
use gotfr_sec.Domain.Models.{GroupDefinition, UserProfile, UserGroupMembership, IssuedTokenRecord}
use gotfr_sec.Repositories.Dict.{Dict, lookup, insert, erase, values}
use gotfr_sec.Repositories.Interfaces.{
  Call, UserProfileRepository, GroupRepository, GroupMembershipRepository, TokenRepository,
  RepositoryBundle,
}

-- The private dictionaries of the four classes.
pub record MemoryStore : Type 0 where
  pub profiles : Dict Text UserProfile
  pub groups : Dict Text GroupDefinition
  pub memberships : Dict (Text × Text) UserGroupMembership
  pub tokens : Dict Text IssuedTokenRecord

-- A method that only reads.
abbrev pub reading : {A : Type 0} → (MemoryStore → A) → Call MemoryStore A
reading f s = (ok (f s), s)

-- InMemoryUserProfileRepository.
abbrev pub user_profiles : UserProfileRepository MemoryStore
user_profiles = record {
  get = λ sub. reading (λ s. lookup sub s.profiles);
  upsert = λ p s. (ok p, record s { profiles = insert p.keycloak_sub p s.profiles });
  is_registered = λ sub. reading (λ s. is_some (lookup sub s.profiles));
}

-- InMemoryGroupRepository.
abbrev pub groups : GroupRepository MemoryStore
groups = record {
  get = λ name. reading (λ s. lookup name s.groups);
  upsert = λ g s. (ok g, record s { groups = insert g.name g s.groups });
  list_all = reading (λ s. values s.groups);
  delete =
      λ name s. (ok (is_some (lookup name s.groups)), record s { groups = erase name s.groups });
}

abbrev pub members_of : Text → MemoryStore → List UserGroupMembership
members_of group s = select (λ m. m.group_name == group) (values s.memberships)

-- InMemoryGroupMembershipRepository.
abbrev pub memberships : GroupMembershipRepository MemoryStore
memberships = record {
  add = λ m s.
      (ok m, record s { memberships = insert (m.keycloak_sub, m.group_name) m s.memberships });
  remove = λ sub group s. (
    ok (is_some (lookup (sub, group) s.memberships)),
    record s { memberships = erase (sub, group) s.memberships },
  );
  has_membership = λ sub group. reading (λ s. is_some (lookup (sub, group) s.memberships));
  list_for_user = λ sub. reading (λ s. select (λ m. m.keycloak_sub == sub) (values s.memberships));
  list_for_group = λ group. reading (members_of group);
  count_members = λ group. reading (λ s. length (members_of group s));
}

-- InMemoryTokenRepository.
abbrev pub tokens : TokenRepository MemoryStore
tokens = record {
  get = λ id. reading (λ s. lookup id s.tokens);
  upsert = λ t s. (ok t, record s { tokens = insert t.token_id t s.tokens });
  list_for_user = λ sub. reading (λ s. select (λ t. t.owner_sub == sub) (values s.tokens));
}

-- The bundle that app/bootstrap.py builds where no Vault is configured.
abbrev pub in_memory : RepositoryBundle MemoryStore
in_memory = record {
  user_profiles = user_profiles;
  groups = groups;
  memberships = memberships;
  tokens = tokens;
}
