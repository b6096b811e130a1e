-- ===== src/Services/Bootstrap/Subjects.antt =====
-- `_normalize_subjects`: the trusted subjects, stripped, each once, without blanks.
use gotfr_sec.Prelude.{
  ◌≡◌, refl, ◌∙◌, not, ◌&&◌, ◌||◌, Bool-cases, inl, inr, List, [], ◌∷◌, ◌++◌, arith, contains,
  ==_iff, if◌then◌else◌,
}
use gotfr_sec.Prelude.Text.{Text, text_eq, strip, truthy}
use gotfr_sec.Repositories.View.{Distinct}
use gotfr_sec.Services.Tokens.Groups.{contains-append, Distinct-append}
use gotfr_sec.Services.Bootstrap.{normalize_from, normalize_subjects}

-- The subjects that are not blank, stripped.
abbrev pub nonblank : List Text → List Text
nonblank [] = []
nonblank (s ∷ ss) = let rest = nonblank ss in if truthy (strip s) then strip s ∷ rest else rest

-- Each of the given subjects that is not blank stands in the list once, and nothing else does.
pub record IsNormalized (subjects normalized : List Text) : Type 0 where
  pub once : Distinct normalized
  pub same : (s : Text) → contains s normalized ≡ contains s (nonblank subjects)

module _ (subjects : List Text) where
  normalize_from-IsNormalized :
      (normalized seen rest : List Text)
      → Distinct normalized
      → ((s : Text) → contains s normalized ≡ contains s seen)
      → ((s : Text)
          → (contains s seen || contains s (nonblank rest)) ≡ contains s (nonblank subjects))
      → IsNormalized subjects (normalize_from normalized seen rest)
  unfolding normalize_from contains
  normalize_from-IsNormalized normalized seen [] once same covers = record {
    once = once;
    same = λ s. ground (arith, same s, covers s);
  }
  normalize_from-IsNormalized normalized seen (x ∷ rest) once same covers =
      elim (Bool-cases (truthy (strip x) && not (contains (strip x) seen))) [
        | inl fresh ↦
            rw (fresh, normalize_from)
              (normalize_from-IsNormalized (normalized ++ strip x ∷ []) (strip x ∷ seen) rest
                (Distinct-append normalized (strip x) once (same (strip x) ∙ ground (arith, fresh)))
                (λ s. ground (arith, contains-append s normalized (strip x ∷ []), same s))
                (λ s. ground (arith, covers s, fresh)))
        | inr skipped ↦
            rw (skipped, normalize_from)
              (normalize_from-IsNormalized normalized seen rest once same
                (λ s. ground (arith, covers s, skipped, ==_iff s (strip x))))
      ]

-- `_normalize_subjects` keeps exactly the subjects that are not blank, stripped, each once.
pub normalize_subjects-IsNormalized :
    (subjects : List Text) → IsNormalized subjects (normalize_subjects subjects)
unfolding normalize_subjects contains
normalize_subjects-IsNormalized subjects =
    normalize_from-IsNormalized subjects [] [] subjects tt (λ s. refl) (λ s. refl)
