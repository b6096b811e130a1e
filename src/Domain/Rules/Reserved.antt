-- ===== src/Domain/Rules/Reserved.antt =====
-- The rules that keep the reserved group as it is.
use gotfr_sec.Prelude.{◌≡◌, refl, false, ◌==◌, arith, ◌↔◌}
use gotfr_sec.Prelude.Text.{Text, text_eq, CaseTable}
use gotfr_sec.Domain.Errors.{Result, ok, err}
use gotfr_sec.Domain.Rules.{
  reserved_admin_group, normalize_group_name, is_reserved_group, ensure_can_rename_group,
}

-- A group name other than the reserved one.
abbrev pub IsFree : CaseTable → Text → Type 0
IsFree wide name =
    (n : Text) × (normalize_group_name wide name ≡ ok n) × ((n == reserved_admin_group) ≡ false)

-- A rename passes exactly if both names are well-formed and neither is the reserved one.
pub ensure_can_rename_group_iff :
    (wide : CaseTable) (current_name new_name : Text)
    → (ensure_can_rename_group wide current_name new_name ≡ ok tt)
      ↔ (IsFree wide current_name × IsFree wide new_name)
unfolding ensure_can_rename_group is_reserved_group
ensure_can_rename_group_iff wide a b =
    go (normalize_group_name wide a) (normalize_group_name wide b) refl refl
  where
    go :
        (o u : Result Text)
        → normalize_group_name wide a ≡ o
        → normalize_group_name wide b ≡ u
        → (ensure_can_rename_group wide a b ≡ ok tt) ↔ (IsFree wide a × IsFree wide b)
    go (err e) u ha hb =
        (λ h. absurd (ground (arith, ha, h)), λ (x, y). absurd (ground (arith, ha, x.1)))
    go (ok n) (err e) ha hb =
        (λ h. absurd (ground (arith, ha, hb, h)), λ (x, y). absurd (ground (arith, hb, y.1)))
    go (ok n) (ok m) ha hb = (
      λ h. ((n, ha, ground (arith, ha, hb, h)), (m, hb, ground (arith, ha, hb, h))),
      λ (x, y). ground (arith, ha, hb, x.1, x.2, y.1, y.2),
    )
