-- ===== src/Services/Registration/Profile.antt =====
-- `register_self`: the first registration time stays, whatever the later claims.
use gotfr_sec.Prelude.{◌≡◌, refl, ap, ◌∙◌, subst, Option, none, some, ==_iff}
use gotfr_sec.Prelude.Text.{Text, text_eq}
use gotfr_sec.Domain.Errors.{ok}
use gotfr_sec.Domain.Models.{Time, UserProfile, refreshed}
use gotfr_sec.Repositories.View.{View, with_profile}
use gotfr_sec.Repositories.Interfaces.{RepositoryBundle}
use gotfr_sec.Repositories.Lawful.{Reading, IsLawful}
use gotfr_sec.Exec.{Platform, World, stored, audited, time_of, after_now}
use gotfr_sec.Services.Contract.{Ends, Ends-map, Ends-audited}
use gotfr_sec.Services.Identity.{VerifiedIdentity}
use gotfr_sec.Services.Registration.{
  RegistrationResult, registration_status, refreshed_profile, register_self,
}
use gotfr_sec.Services.Registration.Registers.{registered, Registers, registered-Registers}

refreshed_profile-sub :
    (subject : Text) (name email : Option Text) (now : Time) (existing : Option UserProfile)
    → (refreshed_profile subject name email now existing).keycloak_sub ≡ subject
unfolding refreshed_profile
refreshed_profile-sub subject name email now none = refl
refreshed_profile-sub subject name email now (some old) = refl

registered_again :
    (identity : VerifiedIdentity) (now : Time) (old : UserProfile)
    → let fresh = registered identity now (some old) in
      (fresh.registered_at ≡ old.registered_at) × (fresh.updated_at ≡ now)
unfolding refreshed_profile
registered_again identity now old = (refl, refl)

stored_under :
    (identity : VerifiedIdentity) (now : Time) (existing : Option UserProfile) (v : View)
    → let fresh = registered identity now existing in
      (with_profile fresh v).profile identity.subject ≡ some fresh
stored_under identity now existing v =
    let sub = refreshed_profile-sub identity.subject _ _ now existing in
    rw ((==_iff (registered identity now existing).keycloak_sub identity.subject).1 sub)

module _ {S : Type 0} (p : Platform) (r : RepositoryBundle S) (reading : Reading S)
    (law : IsLawful reading r) (identity : VerifiedIdentity)
    (subject : reading.IsSubject identity.subject) (cid : Option Text) where
  abbrev RegisterEnds : Option Time → World S → Type 0
  RegisterEnds now w =
      let v = reading.view w.store in
      let existing = v.profile identity.subject in
      let fresh = registered identity (time_of p now w) existing in
      Ends reading (register_self p r identity cid now w)
        (ok (record { profile = fresh; registration_status = registration_status existing }))
        (with_profile fresh v)

  upsert-Ends :
      (existing : Option UserProfile) (now : Time) (w : World S)
      → reading.IsValid w.store
      → let fresh = registered identity now existing in
        Ends reading
          (stored (r.user_profiles.upsert fresh) w)
          (ok fresh)
          (with_profile fresh (reading.view w.store))
  upsert-Ends existing now w valid =
      let y =
        law.profile_upsert w.store valid (registered identity now existing)
          (rw (refreshed_profile-sub identity.subject _ _ now existing) subject) in
      record { returned = y.returned; valid = y.valid; seen = y.seen }

  pub register_self_lem :
      (now : Option Time) (w : World S) → reading.IsValid w.store → RegisterEnds now w
  register_self_lem none w valid =
      unfold register_self in
      rw (law.profile_get w.store valid identity.subject) (
        Ends-map reading _ (audited p _ _ _ (after_now p none w)) (
          Ends-audited reading p _ _ _ (after_now p none w)
            (upsert-Ends _ (p.clock w.clock_reads) (after_now p none w) valid)))
  register_self_lem (some t) w valid =
      unfold register_self in
      rw (law.profile_get w.store valid identity.subject) (
        Ends-map reading _ (audited p _ _ _ w)
          (Ends-audited reading p _ _ _ w (upsert-Ends _ t w valid)))

  -- `register_self` returns and stores one profile under the caller's subject, updated now. Where no
  -- profile was stored, it is `created` and registered now; where one was, it is `refreshed` and
  -- keeps the first time of registration. Name and email are the claims that are texts and not blank,
  -- and otherwise stay.
  pub register_self-Ends :
      (now : Option Time) (w : World S)
      → reading.IsValid w.store
      → let v = reading.view w.store in
        (result : RegistrationResult) × Registers identity
          (time_of p now w)
          (v.profile identity.subject)
          result
        × Ends reading
            (register_self p r identity cid now w)
            (ok result)
            (with_profile result.profile v)
  register_self-Ends now w valid =
      let existing = (reading.view w.store).profile identity.subject in
      let fresh = registered identity (time_of p now w) existing in
      (
        record { profile = fresh; registration_status = registration_status existing },
        registered-Registers identity (time_of p now w) existing,
        register_self_lem now w valid,
      )

module _ {S : Type 0} (p : Platform) (r : RepositoryBundle S) (reading : Reading S)
    (law : IsLawful reading r) (first second : VerifiedIdentity)
    (same : second.subject ≡ first.subject) (subject : reading.IsSubject first.subject) where
  -- A second registration of a subject, with whatever claims, returns `refreshed` with the first
  -- registration time and the new time of update, and the profile it stores is the one returned.
  pub register_self_twice :
      (cid cid' : Option Text) (now now' : Option Time) (w : World S)
      → reading.IsValid w.store
      → let w' = (register_self p r first cid now w).1 in
        let (result, w'') = register_self p r second cid' now' w' in
        (old fresh : UserProfile) × ((reading.view w'.store).profile first.subject ≡ some old)
        × (result ≡ ok (record { profile = fresh; registration_status = refreshed }))
        × (fresh.registered_at ≡ old.registered_at)
        × (fresh.updated_at ≡ time_of p now' w')
        × ((reading.view w''.store).profile first.subject ≡ some fresh)
  register_self_twice cid cid' now now' w valid =
      let one = register_self_lem p r reading law first subject cid now w valid in
      let w' = (register_self p r first cid now w).1 in
      let t' = time_of p now' w' in
      let old = registered first (time_of p now w) ((reading.view w.store).profile first.subject) in
      let two = register_self_lem p r reading law second (rw same subject) cid' now' w' one.valid in
      let fresh = registered second t' (some old) in
      let stored_old : (reading.view w'.store).profile first.subject ≡ some old =
        rw one.seen (stored_under first (time_of p now w) _ (reading.view w.store)) in
      let found : (reading.view w'.store).profile second.subject ≡ some old = rw same stored_old in
      let kept = registered_again second t' old in
      (
        old,
        fresh,
        stored_old,
        rw found at two.returned,
        kept.0,
        kept.1,
        subst
            (λ s.
              (reading.view (register_self p r second cid' now' w').1.store).profile s ≡ some fresh)
            same
            (ap (λ v. v.profile second.subject) two.seen
              ∙ stored_under second t' ((reading.view w'.store).profile second.subject)
                  (reading.view w'.store)
              ∙ ap (λ o. some (registered second t' o)) found),
      )
