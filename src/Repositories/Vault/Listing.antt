-- ===== src/Repositories/Vault/Listing.antt =====
-- The names in the listings of Vault: the slash behind a folder, names that stand once, and the
-- depth of a key.
use gotfr_sec.Prelude.{
  ℕ, suc, ◌+◌, ◌≡◌, ◌≤◌, refl, ◌∙◌, ap, false, true, Bool, ◌&&◌, List, [], ◌∷◌, ==_iff, contains,
  Member, inl, inr, select, nat_beq, arith, if◌then◌else◌,
}
use gotfr_sec.Prelude.Text.{Text, text, text_eq, truthy}
use gotfr_sec.Prelude.Text.Order.{insert_name, sorted_names, contains-sorted_names}
use gotfr_sec.Repositories.View.{Distinct}
use gotfr_sec.Repositories.VaultPaths.{under, IsSegment}
use gotfr_sec.Repositories.VaultPaths.Segments.{
  tokens-IsSegment, profile-IsSegment, groups-IsSegment,
}
use gotfr_sec.Repositories.Vault.Users.{keep_unless_slash, rstrip_slash, distinct_names}
use gotfr_sec.Repositories.Vault.Represents.{UserKey, profile_key, groups_key, token_key}

keep_lem : (c : ℕ) (s : Text) → nat_beq c b'/' ≡ false → keep_unless_slash c s ≡ c ∷ s
keep_lem c [] h = rw h refl
keep_lem c (d ∷ s) h = refl

pub rstrip_slash_segment : (s : Text) → IsSegment s → rstrip_slash s ≡ s
unfolding rstrip_slash
rstrip_slash_segment [] h = refl
rstrip_slash_segment (c ∷ s) h = rw (rstrip_slash_segment s h.1) (keep_lem c s h.0)

pub rstrip_slash_folder : (s : Text) → IsSegment s → rstrip_slash (under s []) ≡ s
unfolding rstrip_slash
rstrip_slash_folder [] h = refl
rstrip_slash_folder (c ∷ s) h = rw (rstrip_slash_folder s h.1) (keep_lem c s h.0)

pub contains-distinct_names :
    (keys : List Text) (key : Text)
    → Member key keys
    → truthy (rstrip_slash key) ≡ true
    → contains (rstrip_slash key) (distinct_names keys) ≡ true
unfolding distinct_names contains
contains-distinct_names [] key m given = absurd m
contains-distinct_names (k ∷ keys) key (inl e) given = ground (
  arith,
  ap rstrip_slash e,
  ap (λ k. truthy (rstrip_slash k)) e,
  ==_iff (rstrip_slash k) (rstrip_slash k),
  ==_iff (rstrip_slash key) (rstrip_slash k),
)
contains-distinct_names (k ∷ keys) key (inr m) given =
    ground (arith, contains-distinct_names keys key m given)

pub Distinct-distinct_names : (keys : List Text) → Distinct (distinct_names keys)
unfolding distinct_names
Distinct-distinct_names [] = tt
Distinct-distinct_names (k ∷ keys) = ground (arith, Distinct-distinct_names keys)

contains-insert_name :
    (g n : Text) (ns : List Text) → contains g (insert_name n ns) ≡ contains g (n ∷ ns)
unfolding insert_name contains
contains-insert_name g n [] = refl
contains-insert_name g n (o ∷ ns) = ground (arith, contains-insert_name g n ns)

Distinct-insert_name :
    (n : Text) (ns : List Text) → contains n ns ≡ false → Distinct ns → Distinct (insert_name n ns)
unfolding insert_name contains
Distinct-insert_name n [] new h = (refl, tt)
Distinct-insert_name n (o ∷ ns) new h =
    ground (arith, Distinct-insert_name n ns, contains-insert_name o n ns, ==_iff n o, ==_iff o n)

pub Distinct-sorted_names : (ns : List Text) → Distinct ns → Distinct (sorted_names ns)
unfolding sorted_names
Distinct-sorted_names [] h = tt
Distinct-sorted_names (n ∷ ns) h =
    Distinct-insert_name n (sorted_names ns) (contains-sorted_names n ns ∙ h.0)
      (Distinct-sorted_names ns h.1)

pub contains-select :
    (test : Text → Bool) (name : Text) (names : List Text)
    → contains name (select test names) ≡ (contains name names && test name)
unfolding contains
contains-select test name [] = refl
contains-select test name (n ∷ names) =
    ground (arith, contains-select test name names, ==_iff name n)

pub Distinct-select :
    (test : Text → Bool) (names : List Text) → Distinct names → Distinct (select test names)
Distinct-select test [] h = tt
Distinct-select test (n ∷ names) h =
    ground (arith, Distinct-select test names h.1, contains-select test n names, h.0)

-- How many slashes a text has.
abbrev pub slashes : Text → ℕ
slashes [] = 0
slashes (c ∷ s) = let rest = slashes s in if nat_beq c b'/' then suc rest else rest

pub slashes-under : (a b : Text) → slashes (under a b) ≡ suc (slashes a + slashes b)
slashes-under [] b = omega arith
slashes-under (c ∷ a) b = ground (arith, slashes-under a b)

slashes_segment : (s : Text) → IsSegment s → slashes s ≡ 0
slashes_segment [] h = refl
slashes_segment (c ∷ s) h = rw (h.0, slashes_segment s h.1) refl

-- Nothing of a user's stands deeper than the index of the tokens.
pub slashes-UserKey : (rest : Text) → UserKey rest → slashes rest ≤ 2
slashes-UserKey rest (profile_key sub h) = omega (
  arith,
  slashes-under sub (text "profile"),
  slashes_segment sub h.0,
  slashes_segment (text "profile") profile-IsSegment,
)
slashes-UserKey rest (groups_key sub h) = omega (
  arith,
  slashes-under sub (text "groups"),
  slashes_segment sub h.0,
  slashes_segment (text "groups") groups-IsSegment,
)
slashes-UserKey rest (token_key sub id h k) = omega (
  arith,
  slashes-under sub (under (text "tokens") id),
  slashes-under (text "tokens") id,
  slashes_segment sub h.0,
  slashes_segment id k.segment,
  slashes_segment (text "tokens") tokens-IsSegment,
)
