-- ===== src/Services/Tokens/Listing.antt =====
-- `list_self_tokens`: the caller's own tokens, latest first.
use gotfr_sec.Prelude.{
  ℕ, ◌≤◌, ◌≡◌, refl, ◌↔◌, ◌⊎◌, inl, inr, Bool-cases, Option, some, List, [], ◌∷◌, arith, Member,
  All, leb,
}
use gotfr_sec.Prelude.Text.{Text}
use gotfr_sec.Domain.Errors.{ok}
use gotfr_sec.Domain.Models.{IssuedTokenRecord}
use gotfr_sec.Repositories.Interfaces.{RepositoryBundle}
use gotfr_sec.Repositories.Lawful.{Reading, IsLawful}
use gotfr_sec.Exec.{Platform, World}
use gotfr_sec.Services.Contract.{Ends, Ends-audited}
use gotfr_sec.Services.Identity.{VerifiedIdentity}
use gotfr_sec.Services.Tokens.{insert_latest, latest_first, list_self_tokens}

-- No token was issued before one that stands behind it.
abbrev pub IsLatestFirst : List IssuedTokenRecord → Type 0
IsLatestFirst [] = Unit
IsLatestFirst (t ∷ ts) = All (λ u. u.issued_at ≤ t.issued_at) ts × IsLatestFirst ts

All-insert :
    (n : ℕ) (t : IssuedTokenRecord) (ts : List IssuedTokenRecord)
    → t.issued_at ≤ n
    → All (λ u. u.issued_at ≤ n) ts
    → All (λ u. u.issued_at ≤ n) (insert_latest t ts)
unfolding insert_latest
All-insert n t [] fits rest = (fits, tt)
All-insert n t (u ∷ us) fits rest = ground (arith, All-insert n t us fits rest.1)

All-le :
    (n m : ℕ) (ts : List IssuedTokenRecord)
    → n ≤ m
    → All (λ u. u.issued_at ≤ n) ts
    → All (λ u. u.issued_at ≤ m) ts
All-le n m [] le rest = tt
All-le n m (u ∷ us) le rest = (omega arith, All-le n m us le rest.1)

insert_latest-IsLatestFirst :
    (t : IssuedTokenRecord) (ts : List IssuedTokenRecord)
    → IsLatestFirst ts
    → IsLatestFirst (insert_latest t ts)
unfolding insert_latest
insert_latest-IsLatestFirst t [] sorted = (tt, tt)
insert_latest-IsLatestFirst t (u ∷ us) sorted = elim (Bool-cases (leb u.issued_at t.issued_at)) [
  | inl later ↦
      rw later ((ground arith, All-le u.issued_at t.issued_at us (ground arith) sorted.0), sorted)
  | inr earlier ↦ rw earlier (
    All-insert u.issued_at t us (ground arith) sorted.0,
    insert_latest-IsLatestFirst t us sorted.1,
  )
]

latest_first-IsLatestFirst : (ts : List IssuedTokenRecord) → IsLatestFirst (latest_first ts)
unfolding latest_first
latest_first-IsLatestFirst [] = tt
latest_first-IsLatestFirst (t ∷ ts) =
    insert_latest-IsLatestFirst t (latest_first ts) (latest_first-IsLatestFirst ts)

Member-insert :
    (x t : IssuedTokenRecord) (ts : List IssuedTokenRecord)
    → Member x (insert_latest t ts) ↔ ((x ≡ t) ⊎ Member x ts)
unfolding insert_latest
Member-insert x t [] = (λ m. m, λ m. m)
Member-insert x t (u ∷ us) = elim (Bool-cases (leb u.issued_at t.issued_at)) [
  | inl later ↦ rw later (λ m. m, λ m. m)
  | inr earlier ↦ rw earlier (
    elim [
      | inl e ↦ inr (inl e)
      | inr m ↦ elim ((Member-insert x t us).0 m) [ inl e ↦ inl e | inr m' ↦ inr (inr m') ]
    ],
    elim [
      | inl e ↦ inr ((Member-insert x t us).1 (inl e))
      | inr m ↦ elim m [ inl e ↦ inl e | inr m' ↦ inr ((Member-insert x t us).1 (inr m')) ]
    ],
  )
]

Member-latest_first :
    (x : IssuedTokenRecord) (ts : List IssuedTokenRecord) → Member x (latest_first ts) ↔ Member x ts
unfolding latest_first
Member-latest_first x [] = (λ m. m, λ m. m)
Member-latest_first x (t ∷ ts) = (
  λ m. elim ((Member-insert x t (latest_first ts)).0 m) [
    | inl e ↦ inl e
    | inr m' ↦ inr ((Member-latest_first x ts).0 m')
  ],
  elim [
    | inl e ↦ (Member-insert x t (latest_first ts)).1 (inl e)
    | inr m ↦ (Member-insert x t (latest_first ts)).1 (inr ((Member-latest_first x ts).1 m))
  ],
)

module _ {S : Type 0} (p : Platform) (r : RepositoryBundle S) (reading : Reading S)
    (law : IsLawful reading r) where
  -- `list_self_tokens` changes no store and returns, latest first, exactly the stored tokens that
  -- the caller owns.
  pub list_self_tokens-Ends :
      (identity : VerifiedIdentity) (cid : Option Text) (w : World S)
      → reading.IsValid w.store
      → let v = reading.view w.store in
        (ts : List IssuedTokenRecord) × Ends reading (list_self_tokens p r identity cid w) (ok ts) v
        × IsLatestFirst ts
        × ((t : IssuedTokenRecord)
            → Member t ts ↔ ((v.token t.token_id ≡ some t) × (t.owner_sub ≡ identity.subject)))
  unfolding list_self_tokens
  list_self_tokens-Ends identity cid w valid =
      let l = law.token_list w.store valid identity.subject in
      (
        latest_first l.listed,
        Ends-audited reading p _ _ _ w
            (rw l.reads (record { returned = refl; valid = valid; seen = refl })),
        latest_first-IsLatestFirst l.listed,
        λ t. (
          λ m. (l.exact t).0 ((Member-latest_first t l.listed).0 m),
          λ h. (Member-latest_first t l.listed).1 ((l.exact t).1 h),
        ),
      )
