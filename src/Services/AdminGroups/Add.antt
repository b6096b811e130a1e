-- ===== src/Services/AdminGroups/Add.antt =====
-- `add_membership`: who is admitted, and that a membership that is there is kept.
use gotfr_sec.Prelude.{
  ◌≡◌, refl, not, Bool-cases, Option-cases, Option, none, some, inl, inr, is_some, if◌then◌else◌,
}
use gotfr_sec.Prelude.Text.{Text, text_eq}
use gotfr_sec.Domain.Errors.{Result, ok, err, group_not_found, unregistered_user}
use gotfr_sec.Domain.Models.{Time, UserGroupMembership}
use gotfr_sec.Domain.Rules.{normalize_group_name}
use gotfr_sec.Repositories.View.{View, with_membership}
use gotfr_sec.Repositories.Interfaces.{RepositoryBundle}
use gotfr_sec.Repositories.Lawful.{Reading, IsLawful}
use gotfr_sec.Exec.{Platform, World, raise_if_lem}
use gotfr_sec.Services.Contract.{map_result, Ends, Ends-same, Ends-audited}
use gotfr_sec.Services.AdminGroups.{
  add_body, add_membership, is_unusable, usable_group, find_membership, require_registered,
  keep_or_add,
}

-- The order of the checks: the shape of the name, an active group, a registered user.
abbrev pub admits : Result Text → Text → View → Result Text
admits (err e) sub v = err e
admits (ok name) sub v =
    if is_unusable (v.group name)
    then err (group_not_found name)
    else if not (is_some (v.profile sub))
    then err (unregistered_user sub)
    else ok name

abbrev pub new_membership : Text → Text → Text → Time → UserGroupMembership
new_membership sub group actor_sub now = record {
  keycloak_sub = sub;
  group_name = group;
  granted_at = now;
  granted_by_sub = some actor_sub;
}

-- The membership that the call returns: the one that is there, or the new one.
abbrev pub kept_or : Option UserGroupMembership → UserGroupMembership → UserGroupMembership
kept_or (some m) fresh = m
kept_or none fresh = fresh

abbrev pub view_with : Option UserGroupMembership → UserGroupMembership → View → View
view_with (some m) fresh v = v
view_with none fresh v = with_membership fresh v

abbrev pub added : Text → Text → Time → View → Result Text → Result UserGroupMembership
added sub actor_sub now v =
    map_result (λ name. kept_or (v.membership sub name) (new_membership sub name actor_sub now))

abbrev pub added_view : Text → Text → Time → View → Result Text → View
added_view sub actor_sub now v (err e) = v
added_view sub actor_sub now v (ok name) =
    view_with (v.membership sub name) (new_membership sub name actor_sub now) v

module _ {S : Type 0} (p : Platform) (r : RepositoryBundle S) (reading : Reading S)
    (law : IsLawful reading r) where
  keep_or_add-Ends :
      (sub name actor_sub : Text) (w : World S)
      → reading.IsValid w.store
      → reading.IsSubject sub
      → (existing : Option UserGroupMembership)
      → let fresh = new_membership sub name actor_sub (p.clock w.clock_reads) in
        Ends reading
          (keep_or_add p r sub name actor_sub existing w)
          (ok (kept_or existing fresh))
          (view_with existing fresh (reading.view w.store))
  unfolding keep_or_add
  keep_or_add-Ends sub name actor_sub w valid subject (some m) =
      Ends-same reading _ (ok m) w refl valid
  keep_or_add-Ends sub name actor_sub w valid subject none =
      let y =
        law.membership_add w.store valid (new_membership sub name actor_sub (p.clock w.clock_reads))
          subject in
      record { returned = y.returned; valid = y.valid; seen = y.seen }

  pub find_membership_lem :
      (sub name : Text) (w : World S)
      → reading.IsValid w.store
      → find_membership p r sub name w ≡ (ok ((reading.view w.store).membership sub name), w)
  unfolding find_membership
  find_membership_lem sub name w valid =
      let l = law.membership_list w.store valid sub in rw (l.reads, l.finds name)

  pub usable_group_lem :
      (name : Text) (w : World S)
      → reading.IsValid w.store
      → usable_group p r name w ≡ (
        if is_unusable ((reading.view w.store).group name)
            then err (group_not_found name)
            else ok tt,
        w,
      )
  unfolding usable_group
  usable_group_lem name w valid = rw (law.group_get w.store valid name) (raise_if_lem _ _ w)

  pub require_registered_lem :
      (sub : Text) (w : World S)
      → reading.IsValid w.store
      → require_registered p r sub w ≡ (
        if not (is_some ((reading.view w.store).profile sub))
            then err (unregistered_user sub)
            else ok tt,
        w,
      )
  unfolding require_registered
  require_registered_lem sub w valid =
      rw (law.profile_is_registered w.store valid sub) (raise_if_lem _ _ w)

  add_body-Ends :
      (sub group_name actor_sub : Text) (w : World S)
      → reading.IsValid w.store
      → let v = reading.view w.store in
        let o = admits (normalize_group_name p.wide group_name) sub v in
        Ends reading
          (add_body p r sub group_name actor_sub w)
          (added sub actor_sub (p.clock w.clock_reads) v o)
          (added_view sub actor_sub (p.clock w.clock_reads) v o)
  unfolding add_body
  add_body-Ends sub group_name actor_sub w valid = go (normalize_group_name p.wide group_name) refl
    where
      v : View
      v = reading.view w.store

      go :
          (o : Result Text)
          → normalize_group_name p.wide group_name ≡ o
          → Ends reading
              (add_body p r sub group_name actor_sub w)
              (added sub actor_sub (p.clock w.clock_reads) v (admits o sub v))
              (added_view sub actor_sub (p.clock w.clock_reads) v (admits o sub v))
      go (err e) h = rw h (Ends-same reading _ (err e) w refl valid)
      go (ok n) h = elim (Bool-cases (is_unusable (v.group n))) [
        | inl unusable ↦
            rw (h, usable_group_lem n w valid, unusable)
              (Ends-same reading _ (err (group_not_found n)) w refl valid)
        | inr usable ↦ elim (Option-cases (v.profile sub)) [
          | inl unknown ↦
              rw
                (h, usable_group_lem n w valid, usable, require_registered_lem sub w valid, unknown)
                (Ends-same reading _ (err (unregistered_user sub)) w refl valid)
          | inr (profile, known) ↦
              rw
                (
                  h,
                  usable_group_lem n w valid,
                  usable,
                  require_registered_lem sub w valid,
                  known,
                  find_membership_lem sub n w valid,
                )
                (keep_or_add-Ends sub n actor_sub w valid
                  (law.profile_subject w.store valid sub profile known) (v.membership sub n))
        ]
      ]

  -- `add_membership` refuses, changing no store, a malformed name, a group that is missing or
  -- inactive and an unregistered user, in this order; else it returns the membership that is there
  -- and changes nothing, or sets and returns a new one granted by the caller.
  pub add_membership-Ends :
      (sub group_name actor_sub : Text) (cid : Option Text) (w : World S)
      → reading.IsValid w.store
      → let v = reading.view w.store in
        let o = admits (normalize_group_name p.wide group_name) sub v in
        Ends reading
          (add_membership p r sub group_name actor_sub cid w)
          (added sub actor_sub (p.clock w.clock_reads) v o)
          (added_view sub actor_sub (p.clock w.clock_reads) v o)
  unfolding add_membership
  add_membership-Ends sub group_name actor_sub cid w valid =
      Ends-audited reading p _ _ _ w (add_body-Ends sub group_name actor_sub w valid)
