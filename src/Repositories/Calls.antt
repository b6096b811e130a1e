-- ===== src/Repositories/Calls.antt =====
-- Calls of a store, one behind the other.
use gotfr_sec.Prelude.{◌≡◌}
use gotfr_sec.Domain.Errors.{Result, ok, err}
use gotfr_sec.Repositories.Interfaces.{Call}

module _ {S A : Type 0} where
  abbrev pub done : A → Call S A
  done value s = (ok value, s)

  -- A pure function that may raise.
  abbrev pub raising : Result A → Call S A
  raising result s = (result, s)

module _ {S A B : Type 0} where
  abbrev pub proceed : Result A → (A → Call S B) → Call S B
  proceed (ok value) next s = next value s
  proceed (err raised) next s = (err raised, s)

  infixl 5 ◌>>=◌ ◌>>◌
  abbrev pub ◌>>=◌ : Call S A → (A → Call S B) → Call S B
  ◌>>=◌ call next s = let (result, after) = call s in proceed result next after

  abbrev pub ◌>>◌ : Call S A → Call S B → Call S B
  first >> second = first >>= λ ignored. second

module _ {S A B : Type 0} (Good : B → S → Type 0) (next : A → Call S B)
    (good : (a : A) (s : S) (b : B) → (next a s).0 ≡ ok b → Good b (next a s).1) where
  -- What the second call leaves where it returns, the calls in sequence leave where they return.
  pub >>=_returned :
      (first : Call S A) (s : S) (b : B)
      → ((first >>= next) s).0 ≡ ok b
      → Good b ((first >>= next) s).1
  >>=_returned first s b = proceed_returned (first s).0 (first s).1
    where
      proceed_returned :
          (result : Result A) (after : S)
          → (proceed result next after).0 ≡ ok b
          → Good b (proceed result next after).1
      proceed_returned (ok a) after h = good a after b h
      proceed_returned (err e) after h = absurd (cc)
