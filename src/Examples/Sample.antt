-- ===== src/Examples/Sample.antt =====
-- A platform, a signer and a process whose stores in memory hold two administrators, the groups
-- `admin` and `ops`, and one token.
use gotfr_sec.Prelude.{◌+◌, refl, false, true, some, none, [], ◌∷◌, list_beq, pair_beq}
use gotfr_sec.Prelude.Int.{ℤ, pos}
use gotfr_sec.Prelude.Text.{Text, text}
use gotfr_sec.Domain.Errors.{ok}
use gotfr_sec.Domain.Models.{
  UserProfile, UserGroupMembership, GroupDefinition, IssuedTokenRecord, active,
}
use gotfr_sec.Domain.Rules.{reserved_admin_group}
use gotfr_sec.Repositories.Dict.{lookup}
use gotfr_sec.Repositories.InMemory.{MemoryStore}
use gotfr_sec.Repositories.InMemory.Laws.{IsStore, memory_reading}
use gotfr_sec.Exec.{Platform, World}
use gotfr_sec.Services.Signer.{TokenSigner}
use gotfr_sec.Services.Identity.{VerifiedIdentity, str}
use gotfr_sec.Services.Tokens.Mint.{IsSigner}

abbrev pub platform : Platform
platform = record {
  wide = λ before c after. c ∷ [];
  clock = λ n. 1000 + n;
  uuid_hex = λ n. b'f' ∷ n ∷ [];
  sha256_hex = λ s. b'#' ∷ s;
}

abbrev pub alice : Text
alice = text "alice"

abbrev pub bob : Text
bob = text "bob"

abbrev pub ops : Text
ops = text "ops"

abbrev pub profile_of : Text → UserProfile
profile_of sub = record {
  keycloak_sub = sub;
  registered_at = 1;
  updated_at = 1;
  display_name = none;
  email = none;
}

abbrev pub group_of : Text → GroupDefinition
group_of name = record {
  name = name;
  description = none;
  is_system = false;
  is_active = true;
  created_at = 2;
}

abbrev pub admin_of : Text → UserGroupMembership
admin_of sub = record {
  keycloak_sub = sub;
  group_name = reserved_admin_group;
  granted_at = 3;
  granted_by_sub = none;
}

abbrev pub token : IssuedTokenRecord
token = record {
  token_id = text "t1";
  owner_sub = alice;
  granted_groups = ops ∷ [];
  status = active;
  issued_at = 4;
  expires_at = some 5000;
  issued_by_sub = some bob;
  jwt_hash = none;
  pending_reveal = false;
  revoked_at = none;
}

abbrev pub store : MemoryStore
store = record {
  profiles = (alice, profile_of alice) ∷ (bob, profile_of bob) ∷ [];
  groups = (reserved_admin_group, group_of reserved_admin_group) ∷ (ops, group_of ops) ∷ [];
  memberships =
      ((alice, reserved_admin_group), admin_of alice)
      ∷ ((bob, reserved_admin_group), admin_of bob)
      ∷ [];
  tokens = (text "t1", token) ∷ [];
}

pub store-IsStore : IsStore store
unfolding lookup list_beq pair_beq
store-IsStore = record {
  profiles = ((refl, (refl, tt)), (refl, (refl, tt)));
  groups = ((refl, (refl, tt)), (refl, (refl, tt)));
  memberships = ((refl, (refl, tt)), (refl, (refl, tt)));
  tokens = ((refl, tt), (refl, tt));
}

abbrev pub world : World MemoryStore
world = record { store = store; audit = []; clock_reads = 0; uuids_drawn = 0 }

abbrev pub signer : TokenSigner MemoryStore
signer = record {
  sign_token = λ id owner_sub issued_at expires_at s. (ok id, s);
  public_key_pem = λ s. (ok [], s);
  public_key_document = λ s. (ok [], s);
}

pub signer-IsSigner : IsSigner platform memory_reading signer
signer-IsSigner = record {
  reads_only = λ id owner_sub issued_at expires_at s. refl;
  id_fits = λ n. tt;
}

-- An hour.
abbrev pub default_lifetime : ℤ
default_lifetime = pos 3600

abbrev pub carol : VerifiedIdentity
carol = record { subject = text "carol"; claims = λ key. some (str (text "Carol")) }
