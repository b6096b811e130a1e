-- ===== src/Examples/Api.antt =====
-- Requests to the sample process.
use gotfr_sec.Prelude.{
  Bool, true, ◌↔◌, ◌≡◌, refl, none, some, Option, List, [], ◌∷◌, list_beq, pair_beq, contains,
}
use gotfr_sec.Prelude.Text.{Text, text, text_eq, strip}
use gotfr_sec.Repositories.Dict.{lookup}
use gotfr_sec.Repositories.InMemory.{in_memory}
use gotfr_sec.Repositories.InMemory.Laws.{memory_view, memory_reading, in_memory-IsLawful}
use gotfr_sec.Services.Identity.{VerifiedIdentity}
use gotfr_sec.Services.Bootstrap.{normalize_subjects, apply_plan}
use gotfr_sec.Api.{answered}
use gotfr_sec.Api.Routes.{authorize_runtime_request, serve, membership_deleted}
use gotfr_sec.Api.Schemas.{
  RuntimeAuthorizationRequestSchema, allowed_body, stripped_or_none, validate_target,
}
use gotfr_sec.Api.Target.{IsTarget, validate_target-IsTarget, authorize_runtime_request_iff}
use gotfr_sec.Services.Runtime.Decision.{IsAllowed}
use gotfr_sec.Api.Governed.{IsGoverned}
use gotfr_sec.Api.Keeps.{serve-IsGoverned}
use gotfr_sec.Api.History.{Arrival, after_all, after_all-apply_plan}
use gotfr_sec.Examples.Sample.{
  platform, alice, bob, ops, store, store-IsStore, world, signer, signer-IsSigner, default_lifetime,
}

-- A bearer token that is the subject itself.
abbrev verify : Text → Option VerifiedIdentity
verify credentials = some (record { subject = credentials; claims = λ key. none })

-- An administrator removes herself.
serve-IsGoverned_example :
    IsGoverned memory_reading
      (serve platform in_memory verify
        (some signer)
        default_lifetime
        (membership_deleted alice (text "admin"))
        (some alice)
        none
        world).1
unfolding lookup list_beq pair_beq
serve-IsGoverned_example =
    serve-IsGoverned platform in_memory memory_reading in_memory-IsLawful verify default_lifetime
      (some signer) (membership_deleted alice (text "admin")) (some alice) none world
      (λ credentials i h. tt) (signer-IsSigner, λ s. refl)
      (record { valid = store-IsStore; admin = (alice, refl) })

-- Each of two administrators removes the other.
abbrev arrivals : List Arrival
arrivals =
    record {
      request = membership_deleted bob (text "admin");
      credentials = some alice;
      verify = verify;
      correlation_id = none;
    }
    ∷ record {
      request = membership_deleted alice (text "admin");
      credentials = some bob;
      verify = verify;
      correlation_id = none;
    }
    ∷ []

after_all-apply_plan_example : IsGoverned memory_reading (
    after_all platform in_memory memory_reading in_memory-IsLawful
      (some signer)
      default_lifetime
      arrivals
      (apply_plan platform in_memory (text " dave" ∷ []) world).1)
unfolding normalize_subjects strip contains
after_all-apply_plan_example =
    after_all-apply_plan platform in_memory memory_reading in_memory-IsLawful (some signer)
      default_lifetime (text " dave" ∷ []) (text "dave") [] arrivals world store-IsStore refl
      (tt, tt) ((λ credentials i h. tt), ((λ credentials i h. tt), tt)) (signer-IsSigner, λ s. refl)

abbrev payload : RuntimeAuthorizationRequestSchema
payload = record {
  token_id = text " t1 ";
  owner_sub = alice;
  group = some (text "ops ");
  resource = some (text "  ");
}

abbrev target : RuntimeAuthorizationRequestSchema
target = record { token_id = text "t1"; owner_sub = alice; group = some ops; resource = none }

payload_valid : validate_target payload ≡ some target
unfolding validate_target stripped_or_none strip
payload_valid = refl

validate_target-IsTarget_example : IsTarget payload target
validate_target-IsTarget_example = validate_target-IsTarget payload payload_valid

authorize_runtime_request_iff_example :
    let (answer, w') = authorize_runtime_request platform in_memory verify payload none world in
    (allowed : Bool) × (answer ≡ answered (allowed_body allowed))
    × (w'.store ≡ store)
    × ((allowed ≡ true)
        ↔ IsAllowed 1000 (text "t1") alice ops ((memory_view store).token (text "t1")))
authorize_runtime_request_iff_example =
    authorize_runtime_request_iff platform in_memory memory_reading in_memory-IsLawful verify
      payload (text "t1") alice ops none world store-IsStore payload_valid refl
