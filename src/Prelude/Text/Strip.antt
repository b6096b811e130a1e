-- ===== src/Prelude/Text/Strip.antt =====
-- Texts that `strip` and `lower` leave alone.
use Prim.Native.Nat.{ℕ, ◌<◌}
use mathlib.Core.Path.{◌≡◌, refl}
use mathlib.Core.Bool.{false, ◌&&◌}
use mathlib.Core.List.{[], ◌∷◌, ◌++◌}
use native.Mathlib.Omega.{arith}
use gotfr_sec.Prelude.Tests.{leb}
use gotfr_sec.Prelude.Lists.{All}
use gotfr_sec.Prelude.Text.{
  Text, CaseTable, is_space, lstrip, rstrip, strip, lower_char, lower_from, lower,
}

abbrev pub HasNoSpace : Text → Type 0
HasNoSpace = All (λ c. is_space c ≡ false)

lstrip-eq_self : (s : Text) → HasNoSpace s → lstrip s ≡ s
unfolding lstrip
lstrip-eq_self [] h = refl
lstrip-eq_self (c ∷ s) h = ground (arith, h.0)

rstrip-eq_self : (s : Text) → HasNoSpace s → rstrip s ≡ s
unfolding rstrip
rstrip-eq_self [] h = refl
rstrip-eq_self (c ∷ []) h = ground (arith, h.0)
rstrip-eq_self (c ∷ d ∷ s) h = ground (arith, rstrip-eq_self (d ∷ s) h.1)

pub strip-eq_self : (s : Text) → HasNoSpace s → strip s ≡ s
unfolding strip
strip-eq_self s h = rw (lstrip-eq_self s h) (rstrip-eq_self s h)

-- An ASCII character that is no capital.
abbrev pub IsSmall : ℕ → Type 0
IsSmall c = (c < 128) × ((leb b'A' c && leb c b'Z') ≡ false)

lower_from-eq_self :
    (wide : CaseTable) (before s : Text) → All IsSmall s → lower_from wide before s ≡ s
unfolding lower_from lower_char
lower_from-eq_self wide before [] h = refl
lower_from-eq_self wide before (c ∷ s) h =
    ground (arith, h.0, lower_from-eq_self wide (before ++ c ∷ []) s h.1)

pub lower-eq_self : (wide : CaseTable) (s : Text) → All IsSmall s → lower wide s ≡ s
unfolding lower
lower-eq_self wide s h = lower_from-eq_self wide [] s h
