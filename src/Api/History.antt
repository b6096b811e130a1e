-- ===== src/Api/History.antt =====
-- Sequences of requests to a process that was bootstrapped.
use gotfr_sec.Prelude.{◌≡◌, Option, List, [], ◌∷◌, All}
use gotfr_sec.Prelude.Int.{ℤ}
use gotfr_sec.Prelude.Text.{Text}
use gotfr_sec.Repositories.Interfaces.{RepositoryBundle}
use gotfr_sec.Repositories.Lawful.{Reading, IsLawful}
use gotfr_sec.Services.Identity.{VerifiedIdentity}
use gotfr_sec.Services.Signer.{TokenSigner}
use gotfr_sec.Services.Bootstrap.{normalize_subjects, apply_plan}
use gotfr_sec.Services.Bootstrap.Plan.{apply_plan-Enlarges}
use gotfr_sec.Exec.{Platform, World}
use gotfr_sec.Api.Routes.{Request, serve}
use gotfr_sec.Api.Governed.{IsGoverned, VerifiesSubjects, SignsFairly}
use gotfr_sec.Api.Keeps.{serve-IsGoverned}

-- A request as it arrives, with what the verifier answers then.
pub record Arrival : Type 0 where
  pub request : Request
  pub credentials : Option Text
  pub verify : Text → Option VerifiedIdentity
  pub correlation_id : Option Text

module _ {S : Type 0} (p : Platform) (r : RepositoryBundle S) (reading : Reading S)
    (law : IsLawful reading r) (signer : Option (TokenSigner S)) (default_lifetime : ℤ) where
  -- The world after requests, one behind the other.
  abbrev pub after_all : List Arrival → World S → World S
  after_all [] w = w
  after_all (a ∷ rest) w =
      after_all rest
        (serve p r a.verify signer default_lifetime a.request a.credentials a.correlation_id w).1

  after_all-IsGoverned :
      (arrivals : List Arrival) (w : World S)
      → All (λ a. VerifiesSubjects reading a.verify) arrivals
      → SignsFairly p reading signer
      → IsGoverned reading w
      → IsGoverned reading (after_all arrivals w)
  after_all-IsGoverned [] w usable fair g = g
  after_all-IsGoverned (a ∷ rest) w usable fair g = after_all-IsGoverned rest _ usable.1 fair (
      serve-IsGoverned p r reading law a.verify default_lifetime signer a.request a.credentials
        a.correlation_id w usable.0 fair g)

  -- After a bootstrap with at least one trusted subject that is not blank, and after any sequence
  -- of requests by any callers behind it, the stores are valid and somebody belongs to the reserved
  -- group. The trusted and the verified subjects may name users, and the signer, if there is one,
  -- changes no store.
  pub after_all-apply_plan :
      (trusted : List Text) (sub : Text) (subs : List Text) (arrivals : List Arrival) (w : World S)
      → reading.IsValid w.store
      → normalize_subjects trusted ≡ sub ∷ subs
      → All reading.IsSubject (normalize_subjects trusted)
      → All (λ a. VerifiesSubjects reading a.verify) arrivals
      → SignsFairly p reading signer
      → IsGoverned reading (after_all arrivals (apply_plan p r trusted w).1)
  after_all-apply_plan trusted sub subs arrivals w valid some_admin trusted_subjects usable fair =
      let (_, enlarges, _, _, admins) =
        apply_plan-Enlarges p r reading law trusted w valid trusted_subjects in
      after_all-IsGoverned arrivals _ usable fair
        (record { valid = enlarges.valid; admin = (sub, (rw some_admin at admins).0) })
