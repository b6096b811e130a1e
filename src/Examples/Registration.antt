-- ===== src/Examples/Registration.antt =====
-- Registrations, profile reads and the bootstrap on the sample process.
use gotfr_sec.Prelude.{◌≡◌, refl, true, none, some, [], ◌∷◌, contains, is_some, All}
use gotfr_sec.Prelude.Text.{text, text_eq, strip}
use gotfr_sec.Domain.Errors.{ok}
use gotfr_sec.Domain.Models.{UserProfile, refreshed}
use gotfr_sec.Domain.Rules.{reserved_admin_group}
use gotfr_sec.Repositories.View.{with_profile}
use gotfr_sec.Repositories.InMemory.{in_memory}
use gotfr_sec.Repositories.InMemory.Laws.{memory_reading, in_memory-IsLawful, memory_view}
use gotfr_sec.Services.Contract.{Ends}
use gotfr_sec.Services.Registration.{
  RegistrationResult, MeProfileView, register_self, get_self_profile,
}
use gotfr_sec.Services.Registration.Registers.{Registers}
use gotfr_sec.Services.Registration.Profile.{register_self-Ends, register_self_twice}
use gotfr_sec.Services.Registration.Groups.{Describes, get_self_profile_lem}
use gotfr_sec.Services.Bootstrap.{BootstrapPlan, normalize_subjects, apply_plan}
use gotfr_sec.Services.Bootstrap.Growth.{IsAdmin}
use gotfr_sec.Services.Bootstrap.Plan.{Enlarges, apply_plan-Enlarges}
use gotfr_sec.Examples.Sample.{platform, store, store-IsStore, world, carol}

register_self-Ends_example :
    (result : RegistrationResult) × Registers carol 9
      ((memory_view store).profile carol.subject)
      result
    × Ends memory_reading
        (register_self platform in_memory carol none (some 9) world)
        (ok result)
        (with_profile result.profile (memory_view store))
register_self-Ends_example =
    register_self-Ends platform in_memory memory_reading in_memory-IsLawful carol tt none (some 9)
      world store-IsStore

register_self_twice_example :
    let w' = (register_self platform in_memory carol none (some 9) world).1 in
    let (result, w'') = register_self platform in_memory carol none (some 10) w' in
    (old fresh : UserProfile) × ((memory_view w'.store).profile (text "carol") ≡ some old)
    × (result ≡ ok (record { profile = fresh; registration_status = refreshed }))
    × (fresh.registered_at ≡ old.registered_at)
    × (fresh.updated_at ≡ 10)
    × ((memory_view w''.store).profile (text "carol") ≡ some fresh)
register_self_twice_example =
    register_self_twice platform in_memory memory_reading in_memory-IsLawful carol carol refl tt
      none none (some 9) (some 10) world store-IsStore

get_self_profile_example :
    (shown : MeProfileView) × (get_self_profile platform in_memory carol world ≡ (ok shown, world))
    × Describes (memory_view store) (text "carol") shown
get_self_profile_example =
    get_self_profile_lem platform in_memory memory_reading in_memory-IsLawful carol world
      store-IsStore

subjects-usable : All memory_reading.IsSubject (normalize_subjects (text " dave " ∷ []))
unfolding normalize_subjects strip contains
subjects-usable = (tt, tt)

apply_plan-Enlarges_example :
    let dave = text " dave " ∷ [] in
    let w' = (apply_plan platform in_memory dave world).1 in
    (plan : BootstrapPlan) × Enlarges platform in_memory memory_reading in_memory-IsLawful world
      (apply_plan platform in_memory dave world)
      plan
    × (plan.trusted_admin_subs ≡ normalize_subjects dave)
    × (is_some ((memory_view w'.store).group reserved_admin_group) ≡ true)
    × All (IsAdmin (memory_view w'.store)) (normalize_subjects dave)
apply_plan-Enlarges_example =
    apply_plan-Enlarges platform in_memory memory_reading in_memory-IsLawful (text " dave " ∷ [])
      world store-IsStore subjects-usable
