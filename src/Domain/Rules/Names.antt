-- ===== src/Domain/Rules/Names.antt =====
-- The shape of group names: the compiled pattern against a description of the texts it matches.
use gotfr_sec.Prelude.{ℕ, zero, suc, ◌≤◌, ◌≡◌, refl, ◌↔◌, true, [], ◌∷◌, ◌++◌, arith, length, All}
use gotfr_sec.Prelude.Text.{Text}
use gotfr_sec.Domain.Rules.{is_edge, is_inner, closes, group_name_matches}

abbrev pub AllInner : Text → Type 0
AllInner = All (λ c. is_inner c ≡ true)

-- `[a-z0-9]` alone, or with up to `n` inner characters and an edge character behind it.
pub data IsClosing (n : ℕ) (s : Text) : Type 0 where
  closing :
      (middle : Text) (last : ℕ)
      → length middle ≤ n
      → AllInner middle
      → is_edge last ≡ true
      → s ≡ middle ++ last ∷ []
      → IsClosing n s

pub data IsGroupName : Text → Type 0 where
  short : (c : ℕ) → is_edge c ≡ true → IsGroupName (c ∷ [])
  long : (c : ℕ) (rest : Text) → is_edge c ≡ true → IsClosing 62 rest → IsGroupName (c ∷ rest)

IsClosing-cons :
    (n c : ℕ) (s : Text) → is_inner c ≡ true → IsClosing n s → IsClosing (suc n) (c ∷ s)
IsClosing-cons n c s h (closing middle last fits inner edge e) =
    closing (c ∷ middle) last (omega arith) (h, inner) edge (cc)

closes→IsClosing : (n : ℕ) (s : Text) → closes n s ≡ true → IsClosing n s
unfolding closes
closes→IsClosing n [] h = absurd (cc)
closes→IsClosing n (c ∷ []) h = closing [] c (omega arith) tt h refl
closes→IsClosing zero (c ∷ d ∷ s) h = absurd (cc)
closes→IsClosing (suc n) (c ∷ d ∷ s) h =
    IsClosing-cons n c (d ∷ s) (ground arith) (closes→IsClosing n (d ∷ s) (ground arith))

closes-append :
    (n : ℕ) (middle : Text) (last : ℕ)
    → length middle ≤ n
    → AllInner middle
    → is_edge last ≡ true
    → closes n (middle ++ last ∷ []) ≡ true
unfolding closes
closes-append zero [] last fits inner edge = edge
closes-append (suc n) [] last fits inner edge = edge
closes-append zero (c ∷ s) last fits inner edge = absurd (omega arith)
closes-append (suc n) (c ∷ []) last fits inner edge = ground (arith, closes-append n [] last)
closes-append (suc n) (c ∷ d ∷ s) last fits inner edge =
    ground (arith, inner.0, closes-append n (d ∷ s) last (omega arith) inner.1 edge)

closes_of_IsClosing : (n : ℕ) (s : Text) → IsClosing n s → closes n s ≡ true
closes_of_IsClosing n s (closing middle last fits inner edge e) =
    rw e (closes-append n middle last fits inner edge)

matches→IsGroupName : (s : Text) → group_name_matches s ≡ true → IsGroupName s
unfolding group_name_matches
matches→IsGroupName [] h = absurd (cc)
matches→IsGroupName (c ∷ []) h = short c h
matches→IsGroupName (c ∷ d ∷ s) h =
    long c (d ∷ s) (ground arith) (closes→IsClosing 62 (d ∷ s) (ground arith))

matches_of_IsGroupName : {s : Text} → IsGroupName s → group_name_matches s ≡ true
unfolding group_name_matches
matches_of_IsGroupName (short c edge) = edge
matches_of_IsGroupName (long c [] edge body) = edge
matches_of_IsGroupName (long c (d ∷ s) edge body) =
    ground (arith, edge, closes_of_IsClosing 62 (d ∷ s) body)

-- The compiled pattern accepts exactly the texts of one edge character, or of two edge characters
-- with at most 62 inner characters between them.
pub group_name_matches_iff : (s : Text) → (group_name_matches s ≡ true) ↔ IsGroupName s
group_name_matches_iff s = (matches→IsGroupName s, matches_of_IsGroupName)
