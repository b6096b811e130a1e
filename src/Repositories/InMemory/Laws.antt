-- ===== src/Repositories/InMemory/Laws.antt =====
-- The stores in memory keep the contract of the stores.
use gotfr_sec.Prelude.{◌≡◌, refl, ap, length, ◌==◌, ==_iff, select, Member-select}
use gotfr_sec.Prelude.Text.{Text, text_eq, text_pair_eq}
use gotfr_sec.Repositories.View.{View}
use gotfr_sec.Repositories.Dict.{
  lookup, values, lookup-key, lookup-insert, lookup-erase, Member-values,
}
use gotfr_sec.Repositories.InMemory.Members.{
  membership_key, IsTable, insert-IsTable, erase-IsTable, find_in-select, Counts-subs, Member-group,
  Member-user, insert_pair, erase_pair,
}
use gotfr_sec.Repositories.Lawful.{
  Reading, ListsUser, ListsGroup, ListsGroups, ListsTokens, IsLawful,
}
use gotfr_sec.Repositories.InMemory.{MemoryStore, members_of, in_memory}

pub record IsStore (s : MemoryStore) : Type 0 where
  pub profiles : IsTable (λ p. p.keycloak_sub) s.profiles
  pub groups : IsTable (λ g. g.name) s.groups
  pub memberships : IsTable membership_key s.memberships
  pub tokens : IsTable (λ t. t.token_id) s.tokens

abbrev pub memory_view : MemoryStore → View
memory_view s = record {
  profile = λ sub. lookup sub s.profiles;
  group = λ name. lookup name s.groups;
  membership = λ sub group. lookup (sub, group) s.memberships;
  token = λ id. lookup id s.tokens;
}

-- Any text may name a user or a token, and every group is listed.
abbrev pub memory_reading : Reading MemoryStore
memory_reading = record {
  IsValid = IsStore;
  view = memory_view;
  IsSubject = λ sub. Unit;
  IsTokenId = λ id. Unit;
  IsGroupKey = λ name. Unit;
}

lists_group :
    (group : Text) (s : MemoryStore)
    → IsStore s
    → ListsGroup memory_reading (in_memory.memberships.list_for_group group s) s group
lists_group group s h = record {
  listed = members_of group s;
  reads = refl;
  exact = Member-group group s.memberships h.memberships;
  counts = Counts-subs group s.memberships h.memberships;
}

lists_groups :
    (s : MemoryStore) → IsStore s → ListsGroups memory_reading (in_memory.groups.list_all s) s
lists_groups s h = record {
  listed = values s.groups;
  reads = refl;
  sound = λ g. (Member-values (λ g. g.name) s.groups g h.groups.0 h.groups.1).0;
  complete = λ g named. (Member-values (λ g. g.name) s.groups g h.groups.0 h.groups.1).1;
}

lists_user :
    (sub : Text) (s : MemoryStore)
    → IsStore s
    → ListsUser memory_reading (in_memory.memberships.list_for_user sub s) s sub
lists_user sub s h = record {
  listed = select (λ m. m.keycloak_sub == sub) (values s.memberships);
  reads = refl;
  finds = λ group. find_in-select sub group s.memberships h.memberships.1;
  exact = Member-user sub s.memberships h.memberships;
}

lists_tokens :
    (sub : Text) (s : MemoryStore)
    → IsStore s
    → ListsTokens memory_reading (in_memory.tokens.list_for_user sub s) s sub
lists_tokens sub s h = record {
  listed = select (λ t. t.owner_sub == sub) (values s.tokens);
  reads = refl;
  exact = λ t.
      let chosen = Member-select (λ r. r.owner_sub == sub) t (values s.tokens) in
      let held = Member-values (λ r. r.token_id) s.tokens t h.tokens.0 h.tokens.1 in
      let same = ==_iff t.owner_sub sub in
      (
        λ m. (held.0 (chosen.0 m).0, same.0 (chosen.0 m).1),
        λ (found, owned). chosen.1 (held.1 found, same.1 owned),
      );
}

-- Every method of the stores in memory acts on valid states as its contract says.
pub in_memory-IsLawful : IsLawful memory_reading in_memory
in_memory-IsLawful = record {
  profile_key = λ s h sub p. lookup-key (λ p. p.keycloak_sub) s.profiles sub p h.profiles.1;
  profile_subject = λ s h sub p e. tt;
  group_key = λ s h name g. lookup-key (λ g. g.name) s.groups name g h.groups.1;
  membership_key = λ s h sub group m e.
      let k : membership_key m ≡ (sub, group) =
        lookup-key membership_key s.memberships (sub, group) m h.memberships.1 e in
      (ap (λ t. t.0) k, ap (λ t. t.1) k);
  token_key = λ s h id t e. (lookup-key (λ t. t.token_id) s.tokens id t h.tokens.1 e, tt, tt);
  profile_get = λ s h sub. refl;
  profile_is_registered = λ s h sub. refl;
  group_get = λ s h name. refl;
  group_list = λ s h. lists_groups s h;
  membership_has = λ s h sub group. refl;
  membership_list = λ s h sub. lists_user sub s h;
  membership_list_group = λ s h group. lists_group group s h;
  membership_count = λ s h group. record {
    count = length (members_of group s);
    reads = refl;
    counts = Counts-subs group s.memberships h.memberships;
  };
  token_get = λ s h id. refl;
  token_list = λ s h sub. lists_tokens sub s h;
  profile_upsert = λ s h p _. record {
    returned = refl;
    valid = record {
      profiles = insert-IsTable (λ p. p.keycloak_sub) p s.profiles h.profiles;
      groups = h.groups;
      memberships = h.memberships;
      tokens = h.tokens;
    };
    seen = λ i. record (memory_view s) {
      profile = λ sub. lookup-insert p.keycloak_sub sub p s.profiles i;
    };
  };
  group_upsert = λ s h g. record {
    returned = refl;
    valid = record {
      profiles = h.profiles;
      groups = insert-IsTable (λ g. g.name) g s.groups h.groups;
      memberships = h.memberships;
      tokens = h.tokens;
    };
    seen = λ i. record (memory_view s) { group = λ name. lookup-insert g.name name g s.groups i };
  };
  group_delete = λ s h name. record {
    returned = refl;
    valid = record {
      profiles = h.profiles;
      groups = erase-IsTable (λ g. g.name) name s.groups h.groups;
      memberships = h.memberships;
      tokens = h.tokens;
    };
    seen = λ i. record (memory_view s) {
      group = λ other. lookup-erase name other s.groups h.groups.0 i;
    };
  };
  membership_add = λ s h m _. record {
    returned = refl;
    valid = record {
      profiles = h.profiles;
      groups = h.groups;
      memberships = insert-IsTable membership_key m s.memberships h.memberships;
      tokens = h.tokens;
    };
    seen = λ i. record (memory_view s) { membership = insert_pair m s.memberships i };
  };
  membership_remove = λ s h sub group. record {
    returned = refl;
    valid = record {
      profiles = h.profiles;
      groups = h.groups;
      memberships = erase-IsTable membership_key (sub, group) s.memberships h.memberships;
      tokens = h.tokens;
    };
    seen = λ i. record (memory_view s) {
      membership = erase_pair sub group s.memberships h.memberships.0 i;
    };
  };
  token_upsert = λ s h t _ _ _. record {
    returned = refl;
    valid = record {
      profiles = h.profiles;
      groups = h.groups;
      memberships = h.memberships;
      tokens = insert-IsTable (λ t. t.token_id) t s.tokens h.tokens;
    };
    seen = λ i. record (memory_view s) { token = λ id. lookup-insert t.token_id id t s.tokens i };
  };
}
