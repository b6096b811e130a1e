-- ===== src/Services/Signing/Base64/Decode.antt =====
-- The text of `_b64url_uint` denotes the number.
use gotfr_sec.Prelude.{
  ℕ, zero, suc, ◌+◌, ◌-◌, ◌*◌, ◌/◌, ◌%◌, ◌<◌, ◌≤◌, ◌≡◌, refl, ◌∙◌, ap, true, Bool, Bool-cases, inl,
  inr, ◌&&◌, ◌||◌, List, [], ◌∷◌, All, leb, nat_beq, arith, if◌then◌else◌,
}
use gotfr_sec.Prelude.Text.{Text}
use gotfr_sec.Services.Signing.Base64.{
  bytes_below, reversed, to_bytes, letter, urlsafe_b64encode, b64url_uint,
}

-- The six bits of a character.
unfoldable pub bits : ℕ → ℕ
bits c =
    if leb b'A' c && leb c b'Z'
    then c - b'A'
    else if leb b'a' c && leb c b'z'
    then c - b'a' + 26
    else if leb b'0' c && leb c b'9'
    then c - b'0' + 52
    else if nat_beq c b'-'
    then 62
    else 63

unfoldable pub first_byte : ℕ → ℕ → ℕ
first_byte x y = bits x * 4 + bits y / 16

unfoldable pub second_byte : ℕ → ℕ → ℕ
second_byte y z = bits y % 16 * 16 + bits z / 4

unfoldable pub third_byte : ℕ → ℕ → ℕ
third_byte z w = bits z % 4 * 64 + bits w

-- The bytes that a text without padding stands for.
unfoldable pub decoded : Text → List ℕ
decoded [] = []
decoded (x ∷ []) = []
decoded (x ∷ y ∷ []) = first_byte x y ∷ []
decoded (x ∷ y ∷ z ∷ []) = first_byte x y ∷ second_byte y z ∷ []
decoded (x ∷ y ∷ z ∷ w ∷ rest) = first_byte x y ∷ second_byte y z ∷ third_byte z w ∷ decoded rest

-- `int.from_bytes(bytes, "big")`, behind the bytes read before.
abbrev pub from_bytes : ℕ → List ℕ → ℕ
from_bytes value [] = value
from_bytes value (b ∷ bs) = from_bytes (value * 256 + b) bs

-- A character of the alphabet for URLs.
abbrev pub is_urlsafe : ℕ → Bool
is_urlsafe c =
    (leb b'A' c && leb c b'Z')
    || (leb b'a' c && leb c b'z')
    || (leb b'0' c && leb c b'9')
    || nat_beq c b'-'
    || nat_beq c b'_'

bits-letter : (v : ℕ) → v < 64 → bits (letter v) ≡ v
unfolding bits letter
bits-letter v h = ground arith

letter_urlsafe : (v : ℕ) → is_urlsafe (letter v) ≡ true
unfolding letter
letter_urlsafe v = ground arith

abbrev IsByte : ℕ → Type 0
IsByte b = b < 256

first_byte_lem :
    (a y : ℕ) → a < 256 → y < 16 → first_byte (letter (a / 4)) (letter (a % 4 * 16 + y)) ≡ a
unfolding first_byte
first_byte_lem a y h k =
    rw (bits-letter (a / 4) (omega (arith, h)), bits-letter (a % 4 * 16 + y) (omega (arith, k)))
      (omega (arith, h, k))

second_byte_lem :
    (x b z : ℕ)
    → x < 4
    → b < 256
    → z < 4
    → second_byte (letter (x * 16 + b / 16)) (letter (b % 16 * 4 + z)) ≡ b
unfolding second_byte
second_byte_lem x b z hx h hz =
    rw
      (
        bits-letter (x * 16 + b / 16) (omega (arith, hx, h)),
        bits-letter (b % 16 * 4 + z) (omega (arith, hz)),
      )
      (omega (arith, hx, h, hz))

third_byte_lem :
    (y c : ℕ) → y < 16 → c < 256 → third_byte (letter (y * 4 + c / 64)) (letter (c % 64)) ≡ c
unfolding third_byte
third_byte_lem y c hy h =
    rw (bits-letter (y * 4 + c / 64) (omega (arith, hy, h)), bits-letter (c % 64) (omega arith))
      (omega (arith, hy, h))

decoded-urlsafe_b64encode : (bs : List ℕ) → All IsByte bs → decoded (urlsafe_b64encode bs) ≡ bs
unfolding decoded urlsafe_b64encode
decoded-urlsafe_b64encode [] h = refl
decoded-urlsafe_b64encode (a ∷ []) h =
    ap (λ x. x ∷ [])
      (ap (λ v. first_byte (letter (a / 4)) (letter v)) (omega arith)
        ∙ first_byte_lem a 0 h.0 (omega arith))
decoded-urlsafe_b64encode (a ∷ b ∷ []) h =
    rw (first_byte_lem a (b / 16) h.0 (omega (arith, h.1.0))) (
      ap (λ y. a ∷ y ∷ [])
        (ap (λ v. second_byte (letter (a % 4 * 16 + b / 16)) (letter v)) (omega arith)
          ∙ second_byte_lem (a % 4) b 0 (omega arith) h.1.0 (omega arith)))
decoded-urlsafe_b64encode (a ∷ b ∷ c ∷ rest) h =
    rw
      (
        first_byte_lem a (b / 16) h.0 (omega (arith, h.1.0)),
        second_byte_lem (a % 4) b (c / 64) (omega arith) h.1.0 (omega (arith, h.1.1.0)),
        third_byte_lem (b % 16) c (omega arith) h.1.1.0,
        decoded-urlsafe_b64encode rest h.1.1.1,
      )
      refl

urlsafe_b64encode_urlsafe : (bs : List ℕ) → All (λ c. is_urlsafe c ≡ true) (urlsafe_b64encode bs)
unfolding urlsafe_b64encode
urlsafe_b64encode_urlsafe [] = tt
urlsafe_b64encode_urlsafe (a ∷ []) = (letter_urlsafe _, (letter_urlsafe _, tt))
urlsafe_b64encode_urlsafe (a ∷ b ∷ []) =
    (letter_urlsafe _, (letter_urlsafe _, (letter_urlsafe _, tt)))
urlsafe_b64encode_urlsafe (a ∷ b ∷ c ∷ rest) = (
  letter_urlsafe _,
  (letter_urlsafe _, (letter_urlsafe _, (letter_urlsafe _, urlsafe_b64encode_urlsafe rest))),
)

-- A number from its bytes, the lowest first.
abbrev lowest_first : List ℕ → ℕ
lowest_first [] = 0
lowest_first (b ∷ bs) = b + 256 * lowest_first bs

from_bytes-reversed :
    (bs after : List ℕ) → from_bytes 0 (reversed bs after) ≡ from_bytes (lowest_first bs) after
from_bytes-reversed [] after = refl
from_bytes-reversed (b ∷ bs) after =
    from_bytes-reversed bs (b ∷ after) ∙ ap (λ v. from_bytes v after) (omega arith)

lowest_first-bytes_below : (fuel n : ℕ) → n ≤ fuel → lowest_first (bytes_below fuel n) ≡ n
unfolding bytes_below
lowest_first-bytes_below zero n h = omega (arith, h)
lowest_first-bytes_below (suc fuel) n h = elim (Bool-cases (nat_beq n 0)) [
  | inl none_left ↦ rw (bytes_below, none_left) ground (arith, none_left)
  | inr left ↦
      let rest = lowest_first-bytes_below fuel (n / 256) (ground (arith, left, h)) in
      rw (bytes_below, left, rest) (omega arith)
]

IsByte-bytes_below : (fuel n : ℕ) → All IsByte (bytes_below fuel n)
unfolding bytes_below
IsByte-bytes_below zero n = tt
IsByte-bytes_below (suc fuel) n = elim (Bool-cases (nat_beq n 0)) [
  | inl none_left ↦ rw (bytes_below, none_left) tt
  | inr left ↦ rw (bytes_below, left) (omega arith, IsByte-bytes_below fuel (n / 256))
]

IsByte-reversed :
    (bs after : List ℕ) → All IsByte bs → All IsByte after → All IsByte (reversed bs after)
IsByte-reversed [] after h k = k
IsByte-reversed (b ∷ bs) after h k = IsByte-reversed bs (b ∷ after) h.1 (h.0, k)

-- The members `n` and `e` of a published key are written in the alphabet for URLs, without padding,
-- and denote the numbers that they were written from.
pub b64url_uint_lem :
    (n : ℕ)
    → (from_bytes 0 (decoded (b64url_uint n)) ≡ n) × All (λ c. is_urlsafe c ≡ true) (b64url_uint n)
unfolding b64url_uint to_bytes
b64url_uint_lem n = (
  ap (from_bytes 0) (
        decoded-urlsafe_b64encode (to_bytes n)
          (IsByte-reversed (bytes_below n n) [] (IsByte-bytes_below n n) tt))
      ∙ from_bytes-reversed (bytes_below n n) []
      ∙ lowest_first-bytes_below n n (omega arith),
  urlsafe_b64encode_urlsafe (to_bytes n),
)
