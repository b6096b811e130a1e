-- ===== src/Repositories/VaultPaths/Segments.antt =====
-- Segments of the keys of Vault: what stands behind the last slash, and which names differ.
use gotfr_sec.Prelude.{
  ◌≡◌, subst, ◌≢◌, refl, true, false, Bool, Bool-cases, inl, inr, ◌==◌, list_beq, ==_iff, [], ◌∷◌,
  nat_beq, arith, if◌then◌else◌,
}
use gotfr_sec.Prelude.Text.{Text, text, text_eq}
use gotfr_sec.Repositories.VaultPaths.{under, IsSegment}

pub ==-not : (a b : Text) → a ≢ b → (a == b) ≡ false
==-not a b h = elim (Bool-cases (a == b)) [
  | inl same ↦ absurd (h ((==_iff a b).0 same))
  | inr differs ↦ differs
]

pub ==-injective : (f : Text → Text) (a b : Text) → (f a ≡ f b → a ≡ b) → (f a == f b) ≡ (a == b)
==-injective f a b h = elim (Bool-cases (a == b)) [
  | inl same ↦ rw (same, (==_iff a b).0 same) ((==_iff (f b) (f b)).1 refl)
  | inr differs ↦
      rw differs (==-not (f a) (f b) (λ e. absurd (ground (arith, differs, (==_iff a b).1 (h e)))))
]

pub not-IsSegment : (a x : Text) → ¬ IsSegment (under a x)
not-IsSegment [] x h = absurd (cc)
not-IsSegment (c ∷ a) x h = not-IsSegment a x h.1

-- What stands behind the last slash.
pub under_last :
    (a b x y : Text) → IsSegment x → IsSegment y → under a x ≡ under b y → (a ≡ b) × (x ≡ y)
under_last [] [] x y hx hy h = ground arith
under_last [] (d ∷ b) x y hx hy h =
    let tail : x ≡ under b y = ground arith in absurd (not-IsSegment b y (subst IsSegment tail hx))
under_last (c ∷ a) [] x y hx hy h =
    let tail : y ≡ under a x = ground arith in absurd (not-IsSegment a x (subst IsSegment tail hy))
under_last (c ∷ a) (d ∷ b) x y hx hy h =
    let (same, rest) = under_last a b x y hx hy (ground arith) in (ground (arith, same), rest)

abbrev has_no_slash : Text → Bool
has_no_slash [] = true
has_no_slash (c ∷ s) = let rest = has_no_slash s in if nat_beq c b'/' then false else rest

pub segment : (s : Text) → has_no_slash s ≡ true → IsSegment s
segment [] h = tt
segment (c ∷ s) h = (ground arith, segment s (ground arith))

pub profile-IsSegment : IsSegment (text "profile")
profile-IsSegment = segment (text "profile") refl

pub groups-IsSegment : IsSegment (text "groups")
groups-IsSegment = segment (text "groups") refl

pub definition-IsSegment : IsSegment (text "definition")
definition-IsSegment = segment (text "definition") refl

pub tokens-IsSegment : IsSegment (text "tokens")
tokens-IsSegment = segment (text "tokens") refl

pub users-IsSegment : IsSegment (text "users")
users-IsSegment = segment (text "users") refl

pub differ : (a b : Text) → (a == b) ≡ false → a ≢ b
differ a b h e = absurd (ground (arith, h, (==_iff a b).1 e))

pub profile_not_groups : text "profile" ≢ text "groups"
unfolding list_beq
profile_not_groups = differ (text "profile") (text "groups") refl

pub users_not_groups : text "users" ≢ text "groups"
unfolding list_beq
users_not_groups = differ (text "users") (text "groups") refl

pub users_not_tokens : text "users" ≢ text "tokens"
unfolding list_beq
users_not_tokens = differ (text "users") (text "tokens") refl

pub groups_not_tokens : text "groups" ≢ text "tokens"
unfolding list_beq
groups_not_tokens = differ (text "groups") (text "tokens") refl
