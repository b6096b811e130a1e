-- ===== src/Examples/Names.antt =====
-- Group names that are accepted and refused.
use gotfr_sec.Prelude.{◌≡◌, ◌↔◌, ◌⊎◌, refl, true, false, [], ◌∷◌, contains, list_beq}
use gotfr_sec.Prelude.Text.{Text, text, text_eq, strip, lower}
use gotfr_sec.Domain.Errors.{ok, err, value_error, reserved_group}
use gotfr_sec.Domain.Rules.{
  is_edge, is_inner, group_name_matches, normalize_group_name, ensure_runtime_groups_allowed,
  reserved_admin_group,
}
use gotfr_sec.Domain.Rules.Names.{IsGroupName, group_name_matches_iff}
use gotfr_sec.Domain.Rules.Normal.{normalize_group_name_lem}
use gotfr_sec.Domain.Rules.Runtime.{Normalized, ensure_runtime_groups_allowed_lem}
use gotfr_sec.Services.Bootstrap.{normalize_subjects}
use gotfr_sec.Services.Bootstrap.Subjects.{IsNormalized, normalize_subjects-IsNormalized}
use gotfr_sec.Examples.Sample.{platform, ops, alice}

ops_normal : normalize_group_name platform.wide (text " OPS ") ≡ ok ops
unfolding normalize_group_name strip lower is_edge is_inner
ops_normal = refl

admin_refused :
    ensure_runtime_groups_allowed platform.wide (text "ops" ∷ text "ADMIN" ∷ [])
    ≡ err reserved_group
unfolding ensure_runtime_groups_allowed normalize_group_name strip lower is_edge is_inner contains
    list_beq
admin_refused = refl

ops_allowed : ensure_runtime_groups_allowed platform.wide (text " OPS " ∷ []) ≡ ok (ops ∷ [])
unfolding ensure_runtime_groups_allowed normalize_group_name strip lower is_edge is_inner contains
    list_beq
ops_allowed = refl

group_name_matches_iff_example : (group_name_matches (text "a-") ≡ true) ↔ IsGroupName (text "a-")
group_name_matches_iff_example = group_name_matches_iff (text "a-")

normalize_group_name_lem_example :
    ((n : Text) × (normalize_group_name platform.wide (text " OPS ") ≡ ok n)
      × (n ≡ lower platform.wide (strip (text " OPS ")))
      × IsGroupName n
      × (normalize_group_name platform.wide n ≡ ok n))
    ⊎ ((normalize_group_name platform.wide (text " OPS ") ≡ err value_error)
        × (¬ IsGroupName (lower platform.wide (strip (text " OPS ")))))
normalize_group_name_lem_example = normalize_group_name_lem platform.wide (text " OPS ")

dash_refused : normalize_group_name platform.wide (text "-") ≡ err value_error
unfolding normalize_group_name strip lower is_edge is_inner
dash_refused = refl

ensure_runtime_groups_allowed_example :
    Normalized platform.wide (text " OPS " ∷ []) (ops ∷ [])
    × (contains reserved_admin_group (ops ∷ []) ≡ false)
ensure_runtime_groups_allowed_example =
    ensure_runtime_groups_allowed_lem platform.wide (text " OPS " ∷ []) ops_allowed

normalize_subjects-IsNormalized_example :
    IsNormalized
      (text " alice" ∷ text "  " ∷ alice ∷ [])
      (normalize_subjects (text " alice" ∷ text "  " ∷ alice ∷ []))
normalize_subjects-IsNormalized_example =
    normalize_subjects-IsNormalized (text " alice" ∷ text "  " ∷ alice ∷ [])
