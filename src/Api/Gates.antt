-- ===== src/Api/Gates.antt =====
-- Admin routes keep the stores valid and the reserved group inhabited.
use gotfr_sec.Prelude.{◌≡◌, refl, Bool-cases, inl, inr, Option, none, some, is_some}
use gotfr_sec.Prelude.Text.{Text, text_eq}
use gotfr_sec.Domain.Rules.{normalize_group_name, reserved_admin_group}
use gotfr_sec.Repositories.Interfaces.{RepositoryBundle}
use gotfr_sec.Repositories.Lawful.{Reading, IsLawful}
use gotfr_sec.Services.Identity.{VerifiedIdentity}
use gotfr_sec.Services.AdminGroups.Create.{create_group-Ends, created_group, creates}
use gotfr_sec.Services.AdminGroups.Add.{add_membership-Ends, admits}
use gotfr_sec.Services.AdminGroups.Remove.{remove_membership-Ends}
use gotfr_sec.Services.AdminGroups.LastAdmin.{remove_membership-HasAdmin}
use gotfr_sec.Services.Tokens.Revoke.{get_token_lem, revoke_token-Ends}
use gotfr_sec.Exec.{Platform, World, time_of}
use gotfr_sec.Api.{Served, identified, with_identity, with_admin}
use gotfr_sec.Api.Routes.{
  create_group_route, add_group_membership, remove_group_membership, get_token_route,
  revoke_token_route,
}
use gotfr_sec.Api.Governed.{
  IsGoverned, governed, created_view-HasAdmin, revoked_view-HasAdmin, added_view-HasAdmin,
}

module _ {S : Type 0} (p : Platform) (r : RepositoryBundle S) (reading : Reading S)
    (law : IsLawful reading r) (verify : Text → Option VerifiedIdentity) where
  pub with_identity-IsGoverned :
      {B : Type 0} (credentials : Option Text) (route : VerifiedIdentity → Served S B) (w : World S)
      → IsGoverned reading w
      → ((i : VerifiedIdentity)
          → identified verify credentials ≡ some i
          → IsGoverned reading (route i w).1)
      → IsGoverned reading (with_identity verify credentials route w).1
  with_identity-IsGoverned {B} credentials route w g keeps = go (identified verify credentials) refl
    where
      go :
          (o : Option VerifiedIdentity)
          → identified verify credentials ≡ o
          → IsGoverned reading (with_identity verify credentials route w).1
      go none h = rw h g
      go (some i) h = rw h (keeps i h)

  pub with_admin-IsGoverned :
      {B : Type 0} (credentials : Option Text) (route : VerifiedIdentity → Served S B) (w : World S)
      → IsGoverned reading w
      → ((i : VerifiedIdentity) → IsGoverned reading (route i w).1)
      → IsGoverned reading (with_admin r verify credentials route w).1
  with_admin-IsGoverned credentials route w g keeps =
      with_identity-IsGoverned credentials _ w g λ i h.
        elim (Bool-cases
          (is_some ((reading.view w.store).membership i.subject reserved_admin_group))) [
            | inl member ↦
                rw (law.membership_has w.store g.valid i.subject reserved_admin_group, member)
                  (keeps i)
            | inr stranger ↦
                rw (law.membership_has w.store g.valid i.subject reserved_admin_group, stranger) g
          ]

  pub create_group_route-IsGoverned :
      (name : Text) (description : Option Text) (credentials cid : Option Text) (w : World S)
      → IsGoverned reading w
      → IsGoverned reading (create_group_route p r verify name description credentials cid w).1
  unfolding create_group_route
  create_group_route-IsGoverned name description credentials cid w g =
      with_admin-IsGoverned credentials _ w g λ i.
        let ends = create_group-Ends p r reading law name description i.subject cid w g.valid in
        governed reading ends (
          created_view-HasAdmin p r reading law
            (created_group p r reading law description (p.clock w.clock_reads)
              (creates (normalize_group_name p.wide name) (reading.view w.store)))
            (reading.view w.store) g.admin)

  pub add_group_membership-IsGoverned :
      (sub group : Text) (credentials cid : Option Text) (w : World S)
      → IsGoverned reading w
      → IsGoverned reading (add_group_membership p r verify sub group credentials cid w).1
  unfolding add_group_membership
  add_group_membership-IsGoverned sub group credentials cid w g =
      with_admin-IsGoverned credentials _ w g λ i.
        governed reading (add_membership-Ends p r reading law sub group i.subject cid w g.valid) (
          added_view-HasAdmin sub i.subject (p.clock w.clock_reads) (reading.view w.store)
            (admits (normalize_group_name p.wide group) sub (reading.view w.store)) g.admin)

  pub remove_group_membership-IsGoverned :
      (sub group : Text) (credentials cid : Option Text) (w : World S)
      → IsGoverned reading w
      → IsGoverned reading (remove_group_membership p r verify sub group credentials cid w).1
  unfolding remove_group_membership
  remove_group_membership-IsGoverned sub group credentials cid w g =
      with_admin-IsGoverned credentials _ w g λ i. record {
        valid = (remove_membership-Ends p r reading law sub group w g.valid i.subject cid).valid;
        admin =
            remove_membership-HasAdmin p r reading law sub group i.subject cid w g.valid g.admin;
      }

  pub get_token_route-IsGoverned :
      (id : Text) (credentials cid : Option Text) (w : World S)
      → IsGoverned reading w
      → IsGoverned reading (get_token_route p r verify id credentials cid w).1
  unfolding get_token_route
  get_token_route-IsGoverned id credentials cid w g =
      with_admin-IsGoverned credentials _ w g
        λ i. governed reading (get_token_lem p r reading law id i.subject cid w g.valid) g.admin

  pub revoke_token_route-IsGoverned :
      (id : Text) (credentials cid : Option Text) (w : World S)
      → IsGoverned reading w
      → IsGoverned reading (revoke_token_route p r verify id credentials cid w).1
  unfolding revoke_token_route
  revoke_token_route-IsGoverned id credentials cid w g =
      with_admin-IsGoverned credentials _ w g λ i.
        governed reading (revoke_token-Ends p r reading law id i.subject cid none w g.valid) (
          revoked_view-HasAdmin (time_of p none w) ((reading.view w.store).token id)
            (reading.view w.store) g.admin)
