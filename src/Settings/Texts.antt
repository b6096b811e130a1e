-- ===== src/Settings/Texts.antt =====
-- `str.upper` and `int(str)`.
use gotfr_sec.Prelude.{
  ℕ, suc, zero, ◌+◌, ◌-◌, ◌*◌, Bool, true, false, ◌&&◌, not, Option, none, some, [], ◌∷◌, ◌++◌,
  nat_beq, ltb, leb, if◌then◌else◌,
}
use gotfr_sec.Prelude.Int.{ℤ, pos, negsuc}
use gotfr_sec.Prelude.Text.{Text, CaseTable, is_space}
use gotfr_sec.Domain.Errors.{Result, ok, err, value_error}

-- Unicode's tables outside ASCII: lower and upper case, and the value of a decimal digit.
pub record Unicode : Type 0 where
  pub wide : CaseTable
  pub wide_upper : ℕ → Text
  pub wide_digit : ℕ → Option ℕ

-- The spaces that `int` drops at the ends of a text: it refuses the separators 0x1c to 0x1f, which
-- `str.strip` drops.
abbrev is_int_space : ℕ → Bool
is_int_space c = is_space c && not (leb 28 c && leb c 31)

abbrev int_lstrip : Text → Text
int_lstrip [] = []
int_lstrip (c ∷ s) = let rest = int_lstrip s in if is_int_space c then rest else c ∷ s

abbrev keep_unless_last : ℕ → Text → Text
keep_unless_last c [] = if is_int_space c then [] else c ∷ []
keep_unless_last c (d ∷ s) = c ∷ d ∷ s

abbrev int_rstrip : Text → Text
int_rstrip [] = []
int_rstrip (c ∷ s) = let rest = int_rstrip s in keep_unless_last c rest

module _ (u : Unicode) where
  abbrev upper_char : ℕ → Text
  upper_char c =
      if leb b'a' c && leb c b'z'
      then (c - 32) ∷ []
      else if ltb c 128
      then c ∷ []
      else u.wide_upper c

  -- `str.upper()`.
  unfoldable pub upper : Text → Text
  upper [] = []
  upper (c ∷ s) = upper_char c ++ upper s

  abbrev digit : ℕ → Option ℕ
  digit c =
      if leb b'0' c && leb c b'9' then some (c - 48) else if ltb c 128 then none else u.wide_digit c

  -- Digits, with single underscores between them. `need` says that a digit has to follow.
  unfoldable pub read_digits : Bool → ℕ → Text → Option ℕ
  read_digits true value [] = none
  read_digits false value [] = some value
  read_digits need value (c ∷ s) = elim (nat_beq c b'_') [
    | true ↦ elim need [ true ↦ none | false ↦ read_digits true value s ]
    | false ↦ elim (digit c) [ none ↦ none | some d ↦ read_digits false (10 * value + d) s ]
  ]

  abbrev digits_in : Text → ℕ
  digits_in [] = 0
  digits_in (c ∷ s) = let rest = digits_in s in if nat_beq c b'_' then rest else suc rest

  -- Python refuses texts of more than 4300 digits.
  abbrev natural : Text → Option ℕ
  natural s = if ltb 4300 (digits_in s) then none else read_digits true 0 s

  abbrev negated : ℕ → ℤ
  negated zero = pos 0
  negated (suc n) = negsuc n

  abbrev result : (ℕ → ℤ) → Option ℕ → Result ℤ
  result sign none = err value_error
  result sign (some n) = ok (sign n)

  abbrev signed : Text → Result ℤ
  signed [] = err value_error
  signed (c ∷ s) =
      if nat_beq c b'-'
      then result negated (natural s)
      else if nat_beq c b'+'
      then result pos (natural s)
      else result pos (natural (c ∷ s))

  -- `int(s)`.
  unfoldable pub int : Text → Result ℤ
  int s = signed (int_rstrip (int_lstrip s))
