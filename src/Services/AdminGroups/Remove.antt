-- ===== src/Services/AdminGroups/Remove.antt =====
-- `remove_membership`: its refusals, and that the reserved group keeps a member.
use gotfr_sec.Prelude.{
  ℕ, zero, suc, ◌≡◌, refl, true, false, not, ◌&&◌, Bool-cases, Option-cases, Option, none, some,
  inl, inr, is_some, ◌==◌, leb, arith, if◌then◌else◌,
}
use gotfr_sec.Prelude.Text.{Text, text_eq}
use gotfr_sec.Domain.Errors.{
  Result, ok, err, group_not_found, unregistered_user, group_membership_not_found,
  last_admin_removal,
}
use gotfr_sec.Domain.Models.{UserGroupMembership}
use gotfr_sec.Domain.Rules.{
  reserved_admin_group, normalize_group_name, ensure_admin_membership_remains,
}
use gotfr_sec.Repositories.View.{View, without_membership}
use gotfr_sec.Repositories.Interfaces.{RepositoryBundle}
use gotfr_sec.Repositories.Lawful.{Reading, IsLawful, Yields-eq}
use gotfr_sec.Exec.{Platform, World, continue, pure, audited}
use gotfr_sec.Services.Contract.{map_result, Ends, Ends-same, Ends-audited, Ends-map}
use gotfr_sec.Services.AdminGroups.{
  remove_body, remove_membership, remove_found, missing_membership, protect_last_admin, minus_one,
  is_unusable,
}
use gotfr_sec.Services.AdminGroups.Add.{
  usable_group_lem, find_membership_lem, require_registered_lem,
}

-- The order of the checks: the shape of the name, an active group, a membership (a missing one is
-- put down to an unregistered user where there is none), and the last administrator.
abbrev pub removes : Result Text → Text → View → ℕ → Result Text
removes (err e) sub v admins = err e
removes (ok name) sub v admins =
    if is_unusable (v.group name)
    then err (group_not_found name)
    else if not (is_some (v.membership sub name))
    then (if is_some (v.profile sub)
        then err (group_membership_not_found sub name)
        else err (unregistered_user sub))
    else if name == reserved_admin_group && leb admins 1
    then err last_admin_removal
    else ok name

abbrev pub removed_view : Text → Result Text → View → View
removed_view sub (err e) v = v
removed_view sub (ok name) v = without_membership sub name v

remains_lem :
    (count : ℕ)
    → ensure_admin_membership_remains (minus_one count)
      ≡ (if leb count 1 then err last_admin_removal else ok tt)
unfolding ensure_admin_membership_remains
remains_lem zero = refl
remains_lem (suc zero) = refl
remains_lem (suc (suc n)) = ground arith

module _ {S : Type 0} (p : Platform) (r : RepositoryBundle S) (reading : Reading S)
    (law : IsLawful reading r) where
  -- The number of members of the reserved group.
  abbrev pub admin_count : (w : World S) → reading.IsValid w.store → ℕ
  admin_count w valid = (law.membership_count w.store valid reserved_admin_group).count

  protect_last_admin_lem :
      (name : Text) (w : World S) (valid : reading.IsValid w.store)
      → protect_last_admin p r name w ≡ (
        if name == reserved_admin_group && leb (admin_count w valid) 1
            then err last_admin_removal
            else ok tt,
        w,
      )
  unfolding protect_last_admin
  protect_last_admin_lem name w valid = elim (Bool-cases (name == reserved_admin_group)) [
    | inl same ↦ rw (
      same,
      (law.membership_count w.store valid reserved_admin_group).reads,
      remains_lem (admin_count w valid),
    )
    | inr other ↦ rw other
  ]

  missing_membership_lem :
      (sub name : Text) (w : World S)
      → reading.IsValid w.store
      → missing_membership p r sub name w ≡ (
        if is_some ((reading.view w.store).profile sub)
            then err (group_membership_not_found sub name)
            else err (unregistered_user sub),
        w,
      )
  unfolding missing_membership
  missing_membership_lem sub name w valid =
      elim (Option-cases ((reading.view w.store).profile sub)) [
        | inl unknown ↦ rw (require_registered_lem p r reading law sub w valid, unknown)
        | inr (profile, known) ↦ rw (require_registered_lem p r reading law sub w valid, known)
      ]

  -- Once the membership has been found and the last administrator is protected, the removal of the
  -- store succeeds: the second `GroupMembershipNotFoundError` is not reached.
  remove_found-Ends :
      (sub name : Text) (w : World S) (valid : reading.IsValid w.store) (m : UserGroupMembership)
      → let v = reading.view w.store in
        v.membership sub name ≡ some m
        → (name == reserved_admin_group && leb (admin_count w valid) 1) ≡ false
        → Ends reading
            (remove_found p r sub name (some m) w)
            (ok tt)
            (without_membership sub name v)
  unfolding remove_found
  remove_found-Ends sub name w valid m found safe =
      let y = law.membership_remove w.store valid sub name in
      rw (protect_last_admin_lem name w valid, safe, Yields-eq reading y, found)
        (record { returned = refl; valid = y.valid; seen = y.seen })

  module _ (sub group_name : Text) (w : World S) (valid : reading.IsValid w.store) where
    abbrev v : View
    v = reading.view w.store

    abbrev verdict_on : Result Text → Result Text
    verdict_on o = removes o sub v (admin_count w valid)

    remove_last-Ends :
        (n : Text) (m : UserGroupMembership)
        → (n == reserved_admin_group && leb (admin_count w valid) 1) ≡ true
        → Ends reading (remove_found p r sub n (some m) w) (err last_admin_removal) v
    unfolding remove_found
    remove_last-Ends n m last =
        rw (protect_last_admin_lem n w valid, last)
          (Ends-same reading _ (err last_admin_removal) w refl valid)

    remove_missing-Ends :
        (n : Text)
        → let o : Result Text =
            if is_some (v.profile sub)
            then err (group_membership_not_found sub n)
            else err (unregistered_user sub) in
          Ends reading
            (continue
              (remove_found p r sub n none w).0
              (λ _. pure n)
              (remove_found p r sub n none w).1)
            o
            (removed_view sub o v)
    unfolding remove_found
    remove_missing-Ends n = elim (Option-cases (v.profile sub)) [
      | inl unknown ↦
          rw (missing_membership_lem sub n w valid, unknown)
            (Ends-same reading _ (err (unregistered_user sub)) w refl valid)
      | inr (profile, known) ↦
          rw (missing_membership_lem sub n w valid, known)
            (Ends-same reading _ (err (group_membership_not_found sub n)) w refl valid)
    ]

    remove_body-Ends :
        let o = verdict_on (normalize_group_name p.wide group_name) in
        Ends reading (remove_body p r sub group_name w) o (removed_view sub o v)
    unfolding remove_body
    remove_body-Ends = go (normalize_group_name p.wide group_name) refl
      where
        go :
            (o : Result Text)
            → normalize_group_name p.wide group_name ≡ o
            → Ends reading
                (remove_body p r sub group_name w)
                (verdict_on o)
                (removed_view sub (verdict_on o) v)
        go (err e) h = rw h (Ends-same reading _ (err e) w refl valid)
        go (ok n) h = elim (Bool-cases (is_unusable (v.group n))) [
          | inl unusable ↦
              rw (h, usable_group_lem p r reading law n w valid, unusable)
                (Ends-same reading _ (err (group_not_found n)) w refl valid)
          | inr usable ↦ elim (Option-cases (v.membership sub n)) [
            | inl missing ↦
                rw
                  (
                    h,
                    usable_group_lem p r reading law n w valid,
                    usable,
                    find_membership_lem p r reading law sub n w valid,
                    missing,
                  )
                  (remove_missing-Ends n)
            | inr (m, found) ↦
                elim (Bool-cases (n == reserved_admin_group && leb (admin_count w valid) 1)) [
                  | inl last ↦
                      rw
                        (
                          h,
                          usable_group_lem p r reading law n w valid,
                          usable,
                          find_membership_lem p r reading law sub n w valid,
                          found,
                          last,
                        )
                        (Ends-map reading (λ _. n) (remove_found p r sub n (some m) w)
                          (remove_last-Ends n m last))
                  | inr safe ↦
                      rw
                        (
                          h,
                          usable_group_lem p r reading law n w valid,
                          usable,
                          find_membership_lem p r reading law sub n w valid,
                          found,
                          safe,
                        )
                        (Ends-map reading (λ _. n) (remove_found p r sub n (some m) w)
                          (remove_found-Ends sub n w valid m found safe))
                ]
          ]
        ]

    -- `remove_membership` refuses, changing no store, a malformed name, a group that is missing or
    -- inactive, a membership that is missing (an unregistered user is told so) and the last member of
    -- the reserved group, in this order; else it removes that one membership.
    pub remove_membership-Ends :
        (actor_sub : Text) (cid : Option Text)
        → let o = removes (normalize_group_name p.wide group_name) sub v (admin_count w valid) in
          Ends reading
            (remove_membership p r sub group_name actor_sub cid w)
            (map_result (λ _. tt) o)
            (removed_view sub o v)
    unfolding remove_membership
    remove_membership-Ends actor_sub cid =
        Ends-map reading (λ _. tt) (audited p _ _ (remove_body p r sub group_name) w)
          (Ends-audited reading p _ _ _ w remove_body-Ends)
