-- ===== src/Services/Signing/Base64.antt =====
-- `_b64url_uint` of app/services/token_service.py: a number as base64url of its bytes.
pub mod Decode
use gotfr_sec.Prelude.{
  true, false, ℕ, zero, suc, ◌+◌, ◌-◌, ◌*◌, ◌/◌, ◌%◌, List, [], ◌∷◌, ltb, nat_beq, if◌then◌else◌,
}
use gotfr_sec.Prelude.Text.{Text}

-- The bytes of a number, the lowest first, without zeros at the end. Dividing by 256 makes a number
-- that is not zero smaller, so the number itself is enough fuel.
unfoldable pub bytes_below : ℕ → ℕ → List ℕ
bytes_below zero n = []
bytes_below (suc fuel) n = elim (nat_beq n 0) [
  | true ↦ []
  | false ↦ n % 256 ∷ bytes_below fuel (n / 256)
]

abbrev pub reversed : List ℕ → List ℕ → List ℕ
reversed [] done = done
reversed (b ∷ bs) done = reversed bs (b ∷ done)

-- `value.to_bytes((value.bit_length() + 7) // 8, "big")`: as many bytes as the number needs.
unfoldable pub to_bytes : ℕ → List ℕ
to_bytes n = reversed (bytes_below n n) []

-- The character of six bits in the alphabet for URLs.
unfoldable pub letter : ℕ → ℕ
letter v =
    if ltb v 26
    then b'A' + v
    else if ltb v 52
    then b'a' + (v - 26)
    else if ltb v 62
    then b'0' + (v - 52)
    else if nat_beq v 62
    then b'-'
    else b'_'

-- `base64.urlsafe_b64encode(raw).rstrip(b"=").decode("ascii")`: three bytes are four characters,
-- two are three, and one is two.
unfoldable pub urlsafe_b64encode : List ℕ → Text
urlsafe_b64encode [] = []
urlsafe_b64encode (a ∷ []) = letter (a / 4) ∷ letter (a % 4 * 16) ∷ []
urlsafe_b64encode (a ∷ b ∷ []) =
    letter (a / 4) ∷ letter (a % 4 * 16 + b / 16) ∷ letter (b % 16 * 4) ∷ []
urlsafe_b64encode (a ∷ b ∷ c ∷ rest) =
    letter (a / 4)
    ∷ letter (a % 4 * 16 + b / 16)
    ∷ letter (b % 16 * 4 + c / 64)
    ∷ letter (c % 64)
    ∷ urlsafe_b64encode rest

unfoldable pub b64url_uint : ℕ → Text
b64url_uint n = urlsafe_b64encode (to_bytes n)
