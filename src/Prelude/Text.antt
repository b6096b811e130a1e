-- ===== src/Prelude/Text.antt =====
-- Python's `str`: a list of code points, with the methods that the program calls (`strip`,
-- `lower`, truth value, `encode("ascii")`). What `lower` does to a character outside ASCII
-- comes from Unicode's case tables and depends on the text around it, so it is a parameter.
pub mod Strip
pub mod Order
use Prim.Native.Nat.{ℕ, ◌+◌}
use Prim.Native.Char.{code}
use Prim.Native.String.{String}
use mathlib.Core.Bool.{Bool, true, false, ◌&&◌, ◌||◌}
use mathlib.Core.Option.{Option, none, some}
use mathlib.Core.List.{List, [], ◌∷◌, ◌++◌}
use gotfr_sec.Prelude.Tests.{ltb, leb, nat_beq, if◌then◌else◌}
use gotfr_sec.Prelude.Equality.{
  Eq, ◌==◌, nat_beq_iff, list_beq, list_beq_iff, pair_beq, pair_beq_iff,
}

abbrev pub Text : Type 0
Text = List ℕ

-- A literal: the code points of a quoted text.
abbrev pub text : String → Text
text String.[] = []
text (String.◌∷◌ c s) = code c ∷ text s

instance abbrev pub nat_eq : Eq ℕ
nat_eq = record { equals = nat_beq; equals_iff = nat_beq_iff }

instance abbrev pub text_eq : Eq Text
text_eq = record { equals = list_beq; equals_iff = list_beq_iff }

instance abbrev pub text_pair_eq : Eq (Text × Text)
text_pair_eq = record { equals = pair_beq; equals_iff = pair_beq_iff }

-- `bool(s)`.
abbrev pub truthy : Text → Bool
truthy [] = false
truthy (_ ∷ _) = true

-- `a or b` for two optional texts: the first unless it is missing or empty.
abbrev pub or_else : Option Text → Option Text → Option Text
or_else none b = b
or_else (some []) b = b
or_else (some (c ∷ s)) b = some (c ∷ s)

-- `str.isspace` of one character.
unfoldable pub is_space : ℕ → Bool
is_space c =
    (leb 9 c && leb c 13)
    || (leb 28 c && leb c 32)
    || nat_beq c 0x85
    || nat_beq c 0xa0
    || nat_beq c 0x1680
    || (leb 0x2000 c && leb c 0x200a)
    || nat_beq c 0x2028
    || nat_beq c 0x2029
    || nat_beq c 0x202f
    || nat_beq c 0x205f
    || nat_beq c 0x3000

pub lstrip : Text → Text
lstrip [] = []
lstrip (c ∷ s) = let rest = lstrip s in if is_space c then rest else c ∷ s

-- A character is dropped if it is a space and nothing is left behind it.
abbrev pub keep_unless_trailing : ℕ → Text → Text
keep_unless_trailing c [] = if is_space c then [] else c ∷ []
keep_unless_trailing c (d ∷ s) = c ∷ d ∷ s

pub rstrip : Text → Text
rstrip [] = []
rstrip (c ∷ s) = keep_unless_trailing c (rstrip s)

-- `str.strip()`.
unfoldable pub strip : Text → Text
unfolding is_space lstrip rstrip
strip s = rstrip (lstrip s)

-- The lower case of a character outside ASCII, between the text before it and the text behind it.
abbrev pub CaseTable : Type 0
CaseTable = Text → ℕ → Text → Text

lower_char : CaseTable → Text → ℕ → Text → Text
lower_char wide before c after =
    if leb b'A' c && leb c b'Z'
    then (c + 32) ∷ []
    else if ltb c 128
    then c ∷ []
    else wide before c after

lower_from : CaseTable → Text → Text → Text
lower_from wide before [] = []
lower_from wide before (c ∷ s) = lower_char wide before c s ++ lower_from wide (before ++ c ∷ []) s

-- `str.lower()`.
unfoldable pub lower : CaseTable → Text → Text
unfolding lower_char lower_from
lower wide = lower_from wide []

-- `str.isascii()`: whether `encode("ascii")` succeeds.
unfoldable pub is_ascii : Text → Bool
is_ascii [] = true
is_ascii (c ∷ s) = ltb c 128 && is_ascii s
