-- ===== src/Repositories/Vault/Once.antt =====
-- Lists of memberships in which every group stands at most once: what is found is what is listed.
use gotfr_sec.Prelude.{
  ◌≡◌, ◌≤◌, ◌↔◌, sym, ap, subst, some, List, [], ◌∷◌, ◌++◌, ◌==◌, ==_iff, select, length, Member,
  is_some, Bool-cases, inl, inr, ◌⊎◌, arith, if◌then◌else◌,
}
use gotfr_sec.Prelude.Text.{Text, text_eq}
use gotfr_sec.Domain.Models.{UserGroupMembership}
use gotfr_sec.Repositories.View.{find_in}
use gotfr_sec.Repositories.Vault.Represents.{IsOnce}

pub Member-append :
    {A : Type 0} (a : A) (xs ys : List A) → Member a (xs ++ ys) ↔ (Member a xs ⊎ Member a ys)
Member-append a [] ys = (λ m. inr m, elim [ inl m ↦ absurd m | inr m ↦ m ])
Member-append a (x ∷ xs) ys = (
  elim [
    | inl e ↦ inl (inl e)
    | inr m ↦ elim ((Member-append a xs ys).0 m) [ inl l ↦ inl (inr l) | inr r ↦ inr r ]
  ],
  elim [
    | inl m ↦ elim m [ inl e ↦ inl e | inr l ↦ inr ((Member-append a xs ys).1 (inl l)) ]
    | inr r ↦ inr ((Member-append a xs ys).1 (inr r))
  ],
)

find_in-listed :
    (group : Text) (ms : List UserGroupMembership) (m : UserGroupMembership)
    → find_in group ms ≡ some m
    → Member m ms × (m.group_name ≡ group)
unfolding find_in
find_in-listed group [] m e = absurd (cc)
find_in-listed group (x ∷ ms) m e = elim (Bool-cases (x.group_name == group)) [
  | inl same ↦
      let is : x ≡ m = ground (arith, same) in
      (inl (sym is), subst (λ n. n.group_name ≡ group) is ((==_iff x.group_name group).0 same))
  | inr differs ↦ let (listed, is) = find_in-listed group ms m (rw differs at e) in (inr listed, is)
]

length-found :
    (group : Text) (ms : List UserGroupMembership)
    → (if is_some (find_in group ms) then 1 else 0)
      ≤ length (select (λ m. m.group_name == group) ms)
unfolding find_in
length-found group [] = omega arith
length-found group (m ∷ ms) = ground (arith, length-found group ms)

IsOnce-rest :
    (x : UserGroupMembership) (ms : List UserGroupMembership) → IsOnce (x ∷ ms) → IsOnce ms
unfolding find_in
IsOnce-rest x ms h group = ground (arith, h group, length-found group ms)

listed-find_in :
    (ms : List UserGroupMembership) (m : UserGroupMembership)
    → IsOnce ms
    → Member m ms
    → find_in m.group_name ms ≡ some m
unfolding find_in
listed-find_in [] m h there = absurd there
listed-find_in (x ∷ ms) m h (inl e) =
    ground (arith, ap (λ n. n.group_name) e, e, ==_iff x.group_name m.group_name)
listed-find_in (x ∷ ms) m h (inr there) =
    let rest = listed-find_in ms m (IsOnce-rest x ms h) there in
    ground (arith, h m.group_name, length-found m.group_name ms, rest)

pub Member-find_in :
    (ms : List UserGroupMembership)
    → IsOnce ms
    → (m : UserGroupMembership) (group : Text)
    → (Member m ms × (m.group_name ≡ group)) ↔ (find_in group ms ≡ some m)
Member-find_in ms h m group = (
  λ (there, is). subst (λ g. find_in g ms ≡ some m) is (listed-find_in ms m h there),
  find_in-listed group ms m,
)
