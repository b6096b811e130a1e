-- ===== src/Services/Bootstrap/Plan.antt =====
-- `apply_plan`: after it the reserved group exists and every trusted subject belongs to it.
use gotfr_sec.Prelude.{
  suc, ◌≡◌, refl, sym, subst, ap, true, Option-cases, inl, inr, List, [], ◌∷◌, All, ==_refl,
  is_some,
}
use gotfr_sec.Prelude.Text.{Text, text_eq}
use gotfr_sec.Domain.Errors.{Result, ok}
use gotfr_sec.Domain.Models.{GroupDefinition}
use gotfr_sec.Domain.Rules.{reserved_admin_group, build_reserved_admin_group}
use gotfr_sec.Repositories.View.{View}
use gotfr_sec.Repositories.Interfaces.{RepositoryBundle}
use gotfr_sec.Repositories.Lawful.{Reading, IsLawful, Yields-eq}
use gotfr_sec.Exec.{Platform, World}
use gotfr_sec.Services.Bootstrap.{
  BootstrapPlan, normalize_subjects, build_plan, ensure_groups, ensure_admin, ensure_admins,
  apply_plan,
}
use gotfr_sec.Services.Bootstrap.Growth.{
  admin_membership, Grows, Grows-refl, Grows-trans, Grows-group, Grows-admin, IsAdmin, is_some_mono,
}

module _ {S : Type 0} (p : Platform) (r : RepositoryBundle S) (reading : Reading S)
    (law : IsLawful reading r) where
  abbrev view_of : World S → View
  view_of w = reading.view w.store

  -- A call that returns, leaves a valid state, and only lets the view grow.
  pub record Enlarges {A : Type 0} (w : World S) (call : Result A × World S) (a : A) : Type 0 where
    pub returned : call.0 ≡ ok a
    pub valid : reading.IsValid call.1.store
    pub grows : Grows (view_of w) (view_of call.1)

  returns :
      {A : Type 0} {w : World S} {call : Result A × World S} {a : A}
      → Enlarges w call a
      → call ≡ (ok a, call.1)
  returns {call = call} e = λ i. (e.returned i, call.1)

  stays : {A : Type 0} (a : A) (w : World S) → reading.IsValid w.store → Enlarges w (ok a, w) a
  stays a w valid = record { returned = refl; valid = valid; grows = Grows-refl (view_of w) }

  ensure_admin-Enlarges :
      (sub : Text) (w : World S)
      → reading.IsValid w.store
      → reading.IsSubject sub
      → Enlarges w (ensure_admin p r sub w) tt × IsAdmin (view_of (ensure_admin p r sub w).1) sub
  unfolding ensure_admin
  ensure_admin-Enlarges sub w valid subject =
      elim (Option-cases ((view_of w).membership sub reserved_admin_group)) [
        | inr (m, there) ↦
            rw (law.membership_has w.store valid sub reserved_admin_group, there)
              (stays tt w valid, ap is_some there)
        | inl missing ↦
            let m = admin_membership sub (p.clock w.clock_reads) in
            let y = law.membership_add w.store valid m subject in
            rw
              (
                law.membership_has w.store valid sub reserved_admin_group,
                missing,
                Yields-eq reading y,
              )
              (
                record {
                  returned = refl;
                  valid = y.valid;
                  grows = rw y.seen (Grows-admin (view_of w) sub (p.clock w.clock_reads) missing);
                },
                rw (y.seen, ==_refl sub, ==_refl reserved_admin_group),
              )
      ]

  ensure_admins_step :
      (sub : Text) (subs : List Text) (w : World S)
      → Enlarges w (ensure_admin p r sub w) tt
      → ensure_admins p r (sub ∷ subs) w ≡ ensure_admins p r subs (ensure_admin p r sub w).1
  unfolding ensure_admins
  ensure_admins_step sub subs w one = rw (returns one)

  ensure_admins-Enlarges :
      (subs : List Text) (w : World S)
      → reading.IsValid w.store
      → All reading.IsSubject subs
      → Enlarges w (ensure_admins p r subs w) tt
        × All (IsAdmin (view_of (ensure_admins p r subs w).1)) subs
  ensure_admins-Enlarges [] w valid subjects = unfold ensure_admins in (stays tt w valid, tt)
  ensure_admins-Enlarges (sub ∷ subs) w valid subjects =
      let (one, here) = ensure_admin-Enlarges sub w valid subjects.0 in
      let w' = (ensure_admin p r sub w).1 in
      let (rest, there) = ensure_admins-Enlarges subs w' one.valid subjects.1 in
      subst (λ call. Enlarges w call tt × All (IsAdmin (view_of call.1)) (sub ∷ subs))
        (sym (ensure_admins_step sub subs w one))
        (
          record {
            returned = rest.returned;
            valid = rest.valid;
            grows = Grows-trans one.grows rest.grows;
          },
          (is_some_mono _ _ (rest.grows.memberships sub reserved_admin_group) here, there),
        )

  abbrev HasGroup : View → Text → Type 0
  HasGroup v name = is_some (v.group name) ≡ true

  ensure_group-Enlarges :
      (g : GroupDefinition) (w : World S)
      → reading.IsValid w.store
      → Enlarges w (ensure_groups p r (g ∷ []) w) tt
        × HasGroup (view_of (ensure_groups p r (g ∷ []) w).1) g.name
  unfolding ensure_groups
  ensure_group-Enlarges g w valid = elim (Option-cases ((view_of w).group g.name)) [
    | inr (d, there) ↦
        rw (law.group_get w.store valid g.name, there) (stays tt w valid, ap is_some there)
    | inl missing ↦
        let y = law.group_upsert w.store valid g in
        rw (law.group_get w.store valid g.name, missing, Yields-eq reading y)
          (
            record {
              returned = refl;
              valid = y.valid;
              grows = rw y.seen (Grows-group (view_of w) g missing);
            },
            rw (y.seen, ==_refl g.name),
          )
  ]

  abbrev plan_at : List Text → World S → BootstrapPlan
  plan_at subs w = record {
    reserved_groups = build_reserved_admin_group (p.clock w.clock_reads) ∷ [];
    trusted_admin_subs = normalize_subjects subs;
  }

  -- The world after the plan is built, and after the reserved group is there.
  abbrev planned : World S → World S
  planned w = record w { clock_reads = suc w.clock_reads }

  abbrev grouped : World S → World S
  grouped w =
      (ensure_groups p r (build_reserved_admin_group (p.clock w.clock_reads) ∷ []) (planned w)).1

  apply_plan_steps :
      (subs : List Text) (w : World S)
      → (ensure_groups p r (build_reserved_admin_group (p.clock w.clock_reads) ∷ []) (planned w)).0
        ≡ ok tt
      → (ensure_admins p r (normalize_subjects subs) (grouped w)).0 ≡ ok tt
      → apply_plan p r subs w
        ≡ (ok (plan_at subs w), (ensure_admins p r (normalize_subjects subs) (grouped w)).1)
  unfolding apply_plan build_plan
  apply_plan_steps subs w one two = rw (one, two)

  -- `apply_plan` returns the plan of the trusted subjects; after it the reserved group exists and
  -- every planned subject belongs to it, whether or not it did before, and it has removed or changed
  -- no entry and added no other membership than in the reserved group. The planned subjects have to
  -- be usable as keys.
  pub apply_plan-Enlarges :
      (subs : List Text) (w : World S)
      → reading.IsValid w.store
      → All reading.IsSubject (normalize_subjects subs)
      → let w' = (apply_plan p r subs w).1 in
        (plan : BootstrapPlan) × Enlarges w (apply_plan p r subs w) plan
        × (plan.trusted_admin_subs ≡ normalize_subjects subs)
        × HasGroup (view_of w') reserved_admin_group
        × All (IsAdmin (view_of w')) (normalize_subjects subs)
  unfolding build_reserved_admin_group
  apply_plan-Enlarges subs w valid subjects =
      let g = build_reserved_admin_group (p.clock w.clock_reads) in
      let (one, group) = ensure_group-Enlarges g (planned w) valid in
      let (two, admins) =
        ensure_admins-Enlarges (normalize_subjects subs) (grouped w) one.valid subjects in
      let plan = plan_at subs w in
      subst
        (λ call.
          (plan : BootstrapPlan) × Enlarges w call plan
          × (plan.trusted_admin_subs ≡ normalize_subjects subs)
          × HasGroup (view_of call.1) reserved_admin_group
          × All (IsAdmin (view_of call.1)) (normalize_subjects subs))
        (sym (apply_plan_steps subs w one.returned two.returned))
        (
          plan,
          record { returned = refl; valid = two.valid; grows = Grows-trans one.grows two.grows },
          refl,
          is_some_mono _ _ (two.grows.groups reserved_admin_group) group,
          admins,
        )
