-- ===== src/Domain/Rules/Normal.antt =====
-- What `normalize_group_name` returns, and that it returns its own results unchanged.
use gotfr_sec.Prelude.{
  ℕ, ◌≡◌, refl, ◌⊎◌, inl, inr, true, false, [], ◌∷◌, arith, All, All-append, Bool-cases,
}
use gotfr_sec.Prelude.Text.{Text, text_eq, CaseTable, is_space, strip, lower, truthy}
use gotfr_sec.Prelude.Text.Strip.{HasNoSpace, IsSmall, strip-eq_self, lower-eq_self}
use gotfr_sec.Domain.Errors.{ok, err, value_error}
use gotfr_sec.Domain.Rules.{is_edge, is_inner, group_name_matches, normalize_group_name}
use gotfr_sec.Domain.Rules.Names.{
  closing, IsGroupName, short, long, AllInner, group_name_matches_iff,
}

edge→inner : (c : ℕ) → is_edge c ≡ true → is_inner c ≡ true
unfolding is_inner
edge→inner c h = ground arith

AllInner-of_IsGroupName : {s : Text} → IsGroupName s → AllInner s
AllInner-of_IsGroupName (short c edge) = (edge→inner c edge, tt)
AllInner-of_IsGroupName (long c rest edge (closing middle last fits inner close e)) = rw e (
  edge→inner c edge,
  All-append (λ d. is_inner d ≡ true) middle (last ∷ []) inner (edge→inner last close, tt),
)

inner→no_space : (c : ℕ) → is_inner c ≡ true → is_space c ≡ false
unfolding is_inner is_space
inner→no_space c h = ground arith

inner→small : (c : ℕ) → is_inner c ≡ true → IsSmall c
unfolding is_inner
inner→small c h = (ground arith, ground arith)

AllInner→HasNoSpace : (s : Text) → AllInner s → HasNoSpace s
AllInner→HasNoSpace [] h = tt
AllInner→HasNoSpace (c ∷ s) h = (inner→no_space c h.0, AllInner→HasNoSpace s h.1)

AllInner→small : (s : Text) → AllInner s → All IsSmall s
AllInner→small [] h = tt
AllInner→small (c ∷ s) h = (inner→small c h.0, AllInner→small s h.1)

module _ (wide : CaseTable) where
  pub normalize-IsGroupName :
      (name : Text) {n : Text}
      → normalize_group_name wide name ≡ ok n
      → (n ≡ lower wide (strip name)) × IsGroupName n
  unfolding normalize_group_name
  normalize-IsGroupName name {n} h = (ground arith, (group_name_matches_iff n).0 (ground arith))

  truthy_of_IsGroupName : {s : Text} → IsGroupName s → truthy s ≡ true
  truthy_of_IsGroupName (short c edge) = refl
  truthy_of_IsGroupName (long c rest edge body) = refl

  lower-strip_of_IsGroupName : {n : Text} → IsGroupName n → lower wide (strip n) ≡ n
  lower-strip_of_IsGroupName {n} h =
      let inner : AllInner n = AllInner-of_IsGroupName h in
      rw (strip-eq_self n (AllInner→HasNoSpace n inner))
        (lower-eq_self wide n (AllInner→small n inner))

  pub normalize_of_IsGroupName : {n : Text} → IsGroupName n → normalize_group_name wide n ≡ ok n
  unfolding normalize_group_name
  normalize_of_IsGroupName {n} h =
      ground (
        arith,
        lower-strip_of_IsGroupName h,
        truthy_of_IsGroupName h,
        (group_name_matches_iff n).1 h,
      )

  pub normalize-value_error :
      (name : Text)
      → ¬ IsGroupName (lower wide (strip name))
      → normalize_group_name wide name ≡ err value_error
  unfolding normalize_group_name
  normalize-value_error name h = elim (Bool-cases (group_name_matches (lower wide (strip name)))) [
    | inl accepted ↦ absurd (h ((group_name_matches_iff _).0 accepted))
    | inr refused ↦ ground (arith, refused)
  ]

  -- A name that is a well-formed group name once stripped and lowered has that for its normal form,
  -- which is its own normal form; any other name raises `ValueError`.
  pub normalize_group_name_lem :
      (name : Text)
      → ((n : Text) × (normalize_group_name wide name ≡ ok n)
          × (n ≡ lower wide (strip name))
          × IsGroupName n
          × (normalize_group_name wide n ≡ ok n))
        ⊎ ((normalize_group_name wide name ≡ err value_error)
            × (¬ IsGroupName (lower wide (strip name))))
  unfolding normalize_group_name
  normalize_group_name_lem name = elim (Bool-cases (group_name_matches (lower wide (strip name)))) [
    | inl accepted ↦
        let good = (group_name_matches_iff (lower wide (strip name))).0 accepted in
        inl (
          lower wide (strip name),
          ground (arith, accepted, truthy_of_IsGroupName good),
          refl,
          good,
          normalize_of_IsGroupName good,
        )
    | inr refused ↦
        let bad : ¬ IsGroupName (lower wide (strip name)) = λ good.
          absurd
            (ground (arith, refused, (group_name_matches_iff (lower wide (strip name))).1 good)) in
        inr (normalize-value_error name bad, bad)
  ]
