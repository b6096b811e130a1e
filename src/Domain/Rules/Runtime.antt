-- ===== src/Domain/Rules/Runtime.antt =====
-- `ensure_runtime_groups_allowed`: what a runtime token may be granted.
use gotfr_sec.Prelude.{◌≡◌, false, List, [], ◌∷◌, arith, contains}
use gotfr_sec.Prelude.Text.{Text, text_eq, CaseTable}
use gotfr_sec.Domain.Errors.{ok}
use gotfr_sec.Domain.Rules.{
  reserved_admin_group, normalize_group_name, normalize_all, ensure_runtime_groups_allowed,
}

-- The requested names in normal form, one for each.
abbrev pub Normalized : CaseTable → List Text → List Text → Type 0
Normalized wide [] [] = Unit
Normalized wide [] (n ∷ ns) = ⊥
Normalized wide (g ∷ gs) [] = ⊥
Normalized wide (g ∷ gs) (n ∷ ns) = (normalize_group_name wide g ≡ ok n) × Normalized wide gs ns

normalize_all-Normalized :
    (wide : CaseTable) (gs ns : List Text) → normalize_all wide gs ≡ ok ns → Normalized wide gs ns
unfolding normalize_all
normalize_all-Normalized wide [] [] h = tt
normalize_all-Normalized wide [] (n ∷ ns) h = cc
normalize_all-Normalized wide (g ∷ gs) [] h = ground arith
normalize_all-Normalized wide (g ∷ gs) (n ∷ ns) h =
    (ground arith, normalize_all-Normalized wide gs ns (ground arith))

-- The names that pass are the requested ones in normal form, and the reserved group is not one.
pub ensure_runtime_groups_allowed_lem :
    (wide : CaseTable) (groups : List Text) {ns : List Text}
    → ensure_runtime_groups_allowed wide groups ≡ ok ns
    → Normalized wide groups ns × (contains reserved_admin_group ns ≡ false)
unfolding ensure_runtime_groups_allowed
ensure_runtime_groups_allowed_lem wide groups {ns} h =
    (normalize_all-Normalized wide groups ns (ground arith), ground arith)
