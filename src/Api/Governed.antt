-- ===== src/Api/Governed.antt =====
-- What requests keep: valid stores, and a member of the reserved group.
use gotfr_sec.Prelude.{ℕ, ◌≡◌, sym, subst, Bool-cases, inl, inr, Option, none, some, arith}
use gotfr_sec.Prelude.Text.{Text, text_eq}
use gotfr_sec.Domain.Errors.{Result, ok, err}
use gotfr_sec.Domain.Models.{UserGroupMembership, GroupDefinition, IssuedTokenRecord}
use gotfr_sec.Repositories.View.{View}
use gotfr_sec.Repositories.Interfaces.{RepositoryBundle}
use gotfr_sec.Repositories.Lawful.{Reading, IsLawful}
use gotfr_sec.Services.Identity.{VerifiedIdentity}
use gotfr_sec.Services.Signer.{TokenSigner}
use gotfr_sec.Services.Contract.{Ends}
use gotfr_sec.Services.AdminGroups.Create.{created_view}
use gotfr_sec.Services.AdminGroups.Add.{added_view, view_with, new_membership}
use gotfr_sec.Services.AdminGroups.LastAdmin.{HasAdmin}
use gotfr_sec.Services.Tokens.{MintedTokenResult, is_revoked}
use gotfr_sec.Services.Tokens.Mint.{IsSigner, minted_view}
use gotfr_sec.Services.Tokens.Revoke.{revoked_view}
use gotfr_sec.Exec.{Platform, World}

module _ {S : Type 0} (reading : Reading S) where
  -- The stores are valid and somebody belongs to the reserved group.
  pub record IsGoverned (w : World S) : Type 0 where
    pub valid : reading.IsValid w.store
    pub admin : HasAdmin (reading.view w.store)

  pub governed :
      {A : Type 0} {call : Result A × World S} {result : Result A} {v : View}
      → Ends reading call result v
      → HasAdmin v
      → IsGoverned call.1
  governed ends h = record { valid = ends.valid; admin = subst HasAdmin (sym ends.seen) h }

  -- Every verified subject may name a user.
  abbrev pub VerifiesSubjects : (Text → Option VerifiedIdentity) → Type 0
  VerifiesSubjects verify =
      (credentials : Text) (i : VerifiedIdentity)
      → verify credentials ≡ some i
      → reading.IsSubject i.subject

-- A configured signer changes no store, and fresh ids may name a token.
abbrev pub SignsFairly : {S : Type 0} → Platform → Reading S → Option (TokenSigner S) → Type 0
SignsFairly p reading none = Unit
SignsFairly {S} p reading (some signer) =
    IsSigner p reading signer × ((s : S) → (signer.public_key_document s).1 ≡ s)

pub created_view-HasAdmin :
    {S : Type 0} (p : Platform) (r : RepositoryBundle S) (reading : Reading S)
    (law : IsLawful reading r) (result : Result GroupDefinition) (v : View)
    → HasAdmin v
    → HasAdmin (created_view p r reading law result v)
created_view-HasAdmin p r reading law (ok g) v h = h
created_view-HasAdmin p r reading law (err e) v h = h

pub minted_view-HasAdmin :
    (result : Result MintedTokenResult) (v : View) → HasAdmin v → HasAdmin (minted_view result v)
minted_view-HasAdmin (ok m) v h = h
minted_view-HasAdmin (err e) v h = h

pub revoked_view-HasAdmin :
    (now : ℕ) (found : Option IssuedTokenRecord) (v : View)
    → HasAdmin v
    → HasAdmin (revoked_view now found v)
revoked_view-HasAdmin now none v h = h
revoked_view-HasAdmin now (some t) v h = elim (Bool-cases (is_revoked t.status)) [
  | inl old ↦ rw old h
  | inr new ↦ rw new h
]

pub view_with-HasAdmin :
    (found : Option UserGroupMembership) (m : UserGroupMembership) (v : View)
    → HasAdmin v
    → HasAdmin (view_with found m v)
view_with-HasAdmin (some old) m v h = h
view_with-HasAdmin none m v (sub, h) = (sub, ground (arith, h))

pub added_view-HasAdmin :
    (sub actor_sub : Text) (now : ℕ) (v : View) (result : Result Text)
    → HasAdmin v
    → HasAdmin (added_view sub actor_sub now v result)
added_view-HasAdmin sub actor_sub now v (err e) h = h
added_view-HasAdmin sub actor_sub now v (ok name) h =
    view_with-HasAdmin (v.membership sub name) (new_membership sub name actor_sub now) v h
