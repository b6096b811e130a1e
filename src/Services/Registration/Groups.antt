-- ===== src/Services/Registration/Groups.antt =====
-- `get_self_profile`: the caller's groups, sorted, and nothing written.
use gotfr_sec.Prelude.{
  Option, none, some, ◌≡◌, refl, ap, ◌∙◌, List, [], ◌∷◌, map, arith, contains, ==_iff, is_some,
}
use gotfr_sec.Prelude.Text.{Text, text_eq}
use gotfr_sec.Domain.Errors.{ok}
use gotfr_sec.Domain.Models.{UserProfile, UserGroupMembership}
use gotfr_sec.Repositories.View.{View, find_in}
use gotfr_sec.Repositories.Interfaces.{RepositoryBundle}
use gotfr_sec.Repositories.Lawful.{Reading, ListsUser, IsLawful}
use gotfr_sec.Exec.{Platform, World}
use gotfr_sec.Services.Identity.{VerifiedIdentity}
use gotfr_sec.Prelude.Text.Order.{
  sorted_names, IsSorted, sorted_names-IsSorted, contains-sorted_names,
}
use gotfr_sec.Services.Registration.{MeProfileView, profile_view, get_self_profile}
use gotfr_sec.Services.Registration.Registers.{field_of}

contains-groups :
    (g : Text) (ms : List UserGroupMembership)
    → contains g (map (λ m. m.group_name) ms) ≡ is_some (find_in g ms)
unfolding find_in contains
contains-groups g [] = refl
contains-groups g (m ∷ ms) =
    ground (arith, contains-groups g ms, ==_iff g m.group_name, ==_iff m.group_name g)

-- What `get_self_profile` says of a subject, written field by field.
pub record Describes (v : View) (subject : Text) (shown : MeProfileView) : Type 0 where
  pub keycloak_sub : shown.keycloak_sub ≡ subject
  pub is_registered : shown.is_registered ≡ is_some (v.profile subject)
  pub display_name : shown.display_name ≡ field_of (λ p. p.display_name) (v.profile subject)
  pub email : shown.email ≡ field_of (λ p. p.email) (v.profile subject)
  pub registered_at : shown.registered_at ≡ field_of (λ p. some p.registered_at) (v.profile subject)
  pub updated_at : shown.updated_at ≡ field_of (λ p. some p.updated_at) (v.profile subject)
  pub sorted : IsSorted shown.groups
  pub groups : (g : Text) → contains g shown.groups ≡ is_some (v.membership subject g)

module _ {S : Type 0} (p : Platform) (r : RepositoryBundle S) (reading : Reading S)
    (law : IsLawful reading r) where
  -- `get_self_profile` changes nothing, not even the audit log. The view it returns has the caller's
  -- subject, says whether a profile is stored, has the stored name, email and times or none, and its
  -- groups are sorted and exactly those that the caller is in.
  pub get_self_profile_lem :
      (identity : VerifiedIdentity) (w : World S)
      → reading.IsValid w.store
      → (shown : MeProfileView) × (get_self_profile p r identity w ≡ (ok shown, w))
        × Describes (reading.view w.store) identity.subject shown
  unfolding get_self_profile profile_view
  get_self_profile_lem identity w valid = go ((reading.view w.store).profile identity.subject) refl
    where
      l :
          ListsUser reading
            (r.memberships.list_for_user identity.subject w.store)
            w.store
            identity.subject
      l = law.membership_list w.store valid identity.subject

      names : List Text
      names = sorted_names (map (λ m. m.group_name) l.listed)

      sorted : IsSorted names
      sorted = sorted_names-IsSorted (map (λ m. m.group_name) l.listed)

      groups :
          (g : Text)
          → contains g names ≡ is_some ((reading.view w.store).membership identity.subject g)
      groups g =
          contains-sorted_names g (map (λ m. m.group_name) l.listed)
          ∙ contains-groups g l.listed
          ∙ ap is_some (l.finds g)

      go :
          (o : Option UserProfile)
          → (reading.view w.store).profile identity.subject ≡ o
          → (shown : MeProfileView) × (get_self_profile p r identity w ≡ (ok shown, w))
            × Describes (reading.view w.store) identity.subject shown
      go none h = (
        profile_view identity.subject names none,
        rw (law.profile_get w.store valid identity.subject, l.reads, h) refl,
        record {
          keycloak_sub = refl;
          is_registered = rw h;
          display_name = rw h;
          email = rw h;
          registered_at = rw h;
          updated_at = rw h;
          sorted = sorted;
          groups = groups;
        },
      )
      go (some profile) h = (
        profile_view identity.subject names (some profile),
        rw (law.profile_get w.store valid identity.subject, l.reads, h) refl,
        record {
          keycloak_sub = law.profile_key w.store valid identity.subject profile h;
          is_registered = rw h;
          display_name = rw h;
          email = rw h;
          registered_at = rw h;
          updated_at = rw h;
          sorted = sorted;
          groups = groups;
        },
      )
