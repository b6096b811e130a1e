-- ===== src/Services/AdminGroups/Create.antt =====
-- `create_group`: what it stores, and when it refuses.
use gotfr_sec.Prelude.{
  suc, ◌≡◌, refl, true, false, Bool-cases, Option-cases, Option, inl, inr, is_some, ◌==◌,
  if◌then◌else◌,
}
use gotfr_sec.Prelude.Text.{Text, text_eq}
use gotfr_sec.Domain.Errors.{Result, ok, err, reserved_group, group_already_exists}
use gotfr_sec.Domain.Models.{Time, GroupDefinition}
use gotfr_sec.Domain.Rules.{reserved_admin_group, normalize_group_name, is_reserved_group}
use gotfr_sec.Domain.Rules.Normal.{normalize-IsGroupName, normalize_of_IsGroupName}
use gotfr_sec.Repositories.View.{View, with_group}
use gotfr_sec.Repositories.Interfaces.{RepositoryBundle}
use gotfr_sec.Repositories.Lawful.{Reading, IsLawful, Yields-eq}
use gotfr_sec.Exec.{Platform, World}
use gotfr_sec.Services.Contract.{map_result, Ends, Ends-same, Ends-audited}
use gotfr_sec.Services.AdminGroups.{create_body, create_group, clean_description}

abbrev pub new_group : Text → Option Text → Time → GroupDefinition
new_group name description now = record {
  name = name;
  description = clean_description description;
  is_system = false;
  is_active = true;
  created_at = now;
}

-- The order of the checks: the shape of the name, the reserved name, a name in use.
abbrev pub creates : Result Text → View → Result Text
creates (err e) v = err e
creates (ok name) v =
    if name == reserved_admin_group
    then err reserved_group
    else if is_some (v.group name)
    then err (group_already_exists name)
    else ok name

module _ {S : Type 0} (p : Platform) (r : RepositoryBundle S) (reading : Reading S)
    (law : IsLawful reading r) where
  abbrev stored_group : Option Text → World S → Result Text → Result GroupDefinition × World S
  stored_group description w (err e) = (err e, w)
  stored_group description w (ok name) =
      let g = new_group name description (p.clock w.clock_reads) in
      (ok g, record w { store = (r.groups.upsert g w.store).1; clock_reads = suc w.clock_reads })

  reserved_of_normal :
      (name : Text) {n : Text}
      → normalize_group_name p.wide name ≡ ok n
      → is_reserved_group p.wide n ≡ ok (n == reserved_admin_group)
  unfolding is_reserved_group
  reserved_of_normal name {n} h =
      rw (normalize_of_IsGroupName p.wide (normalize-IsGroupName p.wide name h).1)

  create_body_lem :
      (name : Text) (description : Option Text) (w : World S)
      → reading.IsValid w.store
      → create_body p r name description w
        ≡ stored_group description w
            (creates (normalize_group_name p.wide name) (reading.view w.store))
  unfolding create_body
  create_body_lem name description w valid = go (normalize_group_name p.wide name) refl
    where
      go :
          (o : Result Text)
          → normalize_group_name p.wide name ≡ o
          → create_body p r name description w
            ≡ stored_group description w (creates o (reading.view w.store))
      go (err e) h = rw h
      go (ok n) h = elim (Bool-cases (n == reserved_admin_group)) [
        | inl same ↦ rw (h, reserved_of_normal name h, same)
        | inr other ↦ elim (Option-cases ((reading.view w.store).group n)) [
          | inl free ↦
              rw (h, reserved_of_normal name h, other, law.group_get w.store valid n, free)
                (rw (
                  Yields-eq reading (
                    law.group_upsert w.store valid
                      (new_group n description (p.clock w.clock_reads)))))
          | inr (g, taken) ↦
              rw (h, reserved_of_normal name h, other, law.group_get w.store valid n, taken)
        ]
      ]

  abbrev pub created_view : Result GroupDefinition → View → View
  created_view (err e) v = v
  created_view (ok g) v = with_group g v

  abbrev pub created_group : Option Text → Time → Result Text → Result GroupDefinition
  created_group description now = map_result (λ name. new_group name description now)

  stored_group-Ends :
      (description : Option Text) (w : World S)
      → reading.IsValid w.store
      → (o : Result Text)
      → let result = created_group description (p.clock w.clock_reads) o in
        Ends reading
          (stored_group description w o)
          result
          (created_view result (reading.view w.store))
  stored_group-Ends description w valid (err e) = Ends-same reading _ (err e) w refl valid
  stored_group-Ends description w valid (ok name) =
      let y = law.group_upsert w.store valid (new_group name description (p.clock w.clock_reads)) in
      record { returned = refl; valid = y.valid; seen = y.seen }

  -- A call of `create_group` raises `ValueError` for a malformed name, `ReservedGroupError` for the
  -- name `admin` and `GroupAlreadyExistsError` for a name in use, and changes no store then; else
  -- it returns the new active group under the normalised name and sets that one entry.
  pub create_group-Ends :
      (name : Text) (description : Option Text) (actor_sub : Text) (cid : Option Text) (w : World S)
      → reading.IsValid w.store
      → let v = reading.view w.store in
        let result =
          created_group description
            (p.clock w.clock_reads)
            (creates (normalize_group_name p.wide name) v) in
        Ends reading
          (create_group p r name description actor_sub cid w)
          result
          (created_view result v)
  unfolding create_group
  create_group-Ends name description actor_sub cid w valid =
      Ends-audited reading p _ _ _ w
        (rw (create_body_lem name description w valid) (stored_group-Ends description w valid _))
