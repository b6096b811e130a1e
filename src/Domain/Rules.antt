-- ===== src/Domain/Rules.antt =====
-- app/domain/rules.py: normalised group names and the rules of the reserved admin group.
pub mod Names
pub mod Normal
pub mod Runtime
pub mod Reserved
use gotfr_sec.Prelude.{
  ℕ, zero, suc, ◌≡◌, refl, Bool, true, false, ◌&&◌, ◌||◌, not, Option, none, some, List, [], ◌∷◌,
  ◌==◌, contains, leb, nat_beq, if◌then◌else◌,
}
use gotfr_sec.Prelude.Int.{ℤ, is_nonpositive}
use gotfr_sec.Prelude.Text.{Text, text, text_eq, CaseTable, strip, lower, truthy}
use gotfr_sec.Domain.Errors.{Result, ok, err, reserved_group, last_admin_removal, value_error}
use gotfr_sec.Domain.Models.{Time, GroupDefinition}

abbrev pub reserved_admin_group : Text
reserved_admin_group = text "admin"

-- `[a-z0-9]`.
unfoldable pub is_edge : ℕ → Bool
is_edge c = (leb b'a' c && leb c b'z') || (leb b'0' c && leb c b'9')

-- `[a-z0-9._-]`.
unfoldable pub is_inner : ℕ → Bool
unfolding is_edge
is_inner c = is_edge c || nat_beq c b'.' || nat_beq c b'_' || nat_beq c b'-'

-- `[a-z0-9._-]{0,n}[a-z0-9]` up to the end of the text.
closes : ℕ → Text → Bool
closes n [] = false
closes n (c ∷ []) = is_edge c
closes zero (c ∷ d ∷ s) = false
closes (suc n) (c ∷ d ∷ s) = is_inner c && closes n (d ∷ s)

-- `_GROUP_NAME_PATTERN.fullmatch`.
pub group_name_matches : Text → Bool
unfolding closes
group_name_matches [] = false
group_name_matches (c ∷ []) = is_edge c
group_name_matches (c ∷ d ∷ s) = is_edge c && closes 62 (d ∷ s)

module _ (wide : CaseTable) where
  unfoldable pub normalize_group_name : Text → Result Text
  unfolding group_name_matches
  normalize_group_name name =
      let normalized = lower wide (strip name) in
      if not (truthy normalized) || not (group_name_matches normalized)
      then err value_error
      else ok normalized

  abbrev is_reserved : Result Text → Result Bool
  is_reserved (ok name) = ok (name == reserved_admin_group)
  is_reserved (err e) = err e

  unfoldable pub is_reserved_group : Text → Result Bool
  is_reserved_group name = is_reserved (normalize_group_name name)

  abbrev refuse_reserved : Result Bool → Result (Unit {0})
  refuse_reserved (ok true) = err reserved_group
  refuse_reserved (ok false) = ok tt
  refuse_reserved (err e) = err e

  unfoldable pub ensure_can_delete_group : Text → Result (Unit {0})
  ensure_can_delete_group name = refuse_reserved (is_reserved_group name)

  -- The second name is looked at only if the first is not reserved.
  abbrev or_reserved : Result Bool → Result Bool → Result Bool
  or_reserved (ok true) second = ok true
  or_reserved (ok false) second = second
  or_reserved (err e) second = err e

  unfoldable pub ensure_can_rename_group : Text → Text → Result (Unit {0})
  ensure_can_rename_group current_name new_name =
      refuse_reserved (or_reserved (is_reserved_group current_name) (is_reserved_group new_name))

  abbrev cons_result : Result Text → Result (List Text) → Result (List Text)
  cons_result (err e) rest = err e
  cons_result (ok name) (err e) = err e
  cons_result (ok name) (ok names) = ok (name ∷ names)

  -- `tuple(normalize_group_name(group) for group in groups)`.
  pub normalize_all : List Text → Result (List Text)
  normalize_all [] = ok []
  normalize_all (name ∷ names) = cons_result (normalize_group_name name) (normalize_all names)

  abbrev refuse_admin : Result (List Text) → Result (List Text)
  refuse_admin (err e) = err e
  refuse_admin (ok names) =
      if contains reserved_admin_group names then err reserved_group else ok names

  unfoldable pub ensure_runtime_groups_allowed : List Text → Result (List Text)
  unfolding normalize_all
  ensure_runtime_groups_allowed groups = refuse_admin (normalize_all groups)

-- `is_nonpositive` is the code's `member_count <= 0`.
unfoldable pub ensure_admin_membership_remains : ℤ → Result (Unit {0})
ensure_admin_membership_remains member_count =
    if is_nonpositive member_count then err last_admin_removal else ok tt

-- The definition, with the time at which it is built.
unfoldable pub build_reserved_admin_group : Time → GroupDefinition
build_reserved_admin_group now = record {
  name = reserved_admin_group;
  description = some (text "Reserved control-plane administrators");
  is_system = true;
  is_active = true;
  created_at = now;
}
