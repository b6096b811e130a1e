-- ===== src/Examples/MemoryVault.antt =====
-- A Vault in memory, which shows that what the stores rely on can hold.
use gotfr_sec.Prelude.{
  ◌≡◌, refl, sym, ◌∙◌, ap, fun_ext, subst, true, Bool-cases, Option-cases, inl, inr, ◌⊎◌, Option,
  none, some, List, [], ◌∷◌, ◌==◌, ==_iff, is_some, Member, nat_beq, arith, if◌then◌else◌,
}
use gotfr_sec.Prelude.Text.{Text, text_eq}
use gotfr_sec.Domain.Errors.{Result, ok, err, value_error}
use gotfr_sec.Domain.Models.{Time}
use gotfr_sec.Repositories.Dict.{Dict, lookup, insert, lookup-insert}
use gotfr_sec.Repositories.Json.{Fields}
use gotfr_sec.Repositories.VaultPaths.{under, IsSegment}
use gotfr_sec.Repositories.Vault.Client.{VaultClient, Formats, IsIso}
use gotfr_sec.Repositories.Vault.Contract.{KeyBelow, leaf, folder, Lists, IsVault}

abbrev pub MemoryVault : Type 0
MemoryVault = Dict Text Fields

-- What stands behind a folder in a key.
abbrev behind : Text → Text → Option Text
behind root [] = none
behind [] (c ∷ s) = if nat_beq c b'/' then some s else none
behind (r ∷ root) (c ∷ s) = let rest = behind root s in if nat_beq r c then rest else none

behind-under : (root x : Text) → behind root (under root x) ≡ some x
behind-under [] x = refl
behind-under (c ∷ root) x = ground (arith, behind-under root x)

under-behind : (root key x : Text) → behind root key ≡ some x → key ≡ under root x
under-behind root [] x h = absurd (cc)
under-behind [] (c ∷ s) x h = ground arith
under-behind (r ∷ root) (c ∷ s) x h = ground (arith, under-behind root s x)

-- The name that a listing shows: up to the first slash.
abbrev shown : Text → Text
shown [] = []
shown (c ∷ s) = let rest = shown s in if nat_beq c b'/' then c ∷ [] else c ∷ rest

shown_segment : (s : Text) → IsSegment s → shown s ≡ s
shown_segment [] h = refl
shown_segment (c ∷ s) h = rw (h.0, shown_segment s h.1) refl

shown_folder : (name rest : Text) → IsSegment name → shown (under name rest) ≡ under name []
shown_folder [] rest h = refl
shown_folder (c ∷ name) rest h = rw (h.0, shown_folder name rest h.1) refl

IsSegment-or_folder :
    (s : Text)
    → IsSegment s ⊎ ((name : Text) × (rest : Text) × (s ≡ under name rest) × IsSegment name)
IsSegment-or_folder [] = inl tt
IsSegment-or_folder (c ∷ s) = elim (Bool-cases (nat_beq c b'/')) [
  | inl slash ↦ inr ([], s, ground arith, tt)
  | inr other ↦ elim (IsSegment-or_folder s) [
    | inl seg ↦ inl (other, seg)
    | inr (name, rest, e, seg) ↦ inr (c ∷ name, rest, ap (λ t. c ∷ t) e, (other, seg))
  ]
]

abbrev show_next : Option Text → List Text → List Text
show_next none names = names
show_next (some x) names = shown x ∷ names

abbrev listing : Text → MemoryVault → List Text
listing root [] = []
listing root ((key, fields) ∷ d) = show_next (behind root key) (listing root d)

Member-show_next :
    (name : Text) (o : Option Text) (names : List Text)
    → Member name names
    → Member name (show_next o names)
Member-show_next name none names m = m
Member-show_next name (some x) names m = inr m

Member-listing :
    (root x : Text) (d : MemoryVault)
    → is_some (lookup (under root x) d) ≡ true
    → Member (shown x) (listing root d)
unfolding lookup
Member-listing root x [] h = absurd (cc)
Member-listing root x ((key, fields) ∷ d) h = elim (Bool-cases (key == under root x)) [
  | inl same ↦ rw ((==_iff key (under root x)).0 same, behind-under root x) (inl refl)
  | inr differs ↦
      let rest = Member-listing root x d (rw differs at h) in
      Member-show_next (shown x) (behind root key) (listing root d) rest
]

still :
    (path key : Text) (fields : Fields) (d : MemoryVault)
    → is_some (lookup path d) ≡ true
    → is_some (lookup path ((key, fields) ∷ d)) ≡ true
unfolding lookup
still path key fields d h = ground (arith, h)

listing-Member :
    (root name : Text) (d : MemoryVault)
    → Member name (listing root d)
    → (x : Text) × (is_some (lookup (under root x) d) ≡ true) × (name ≡ shown x)
unfolding lookup
listing-Member root name [] m = absurd m
listing-Member root name ((key, fields) ∷ d) m =
    let later : Member name (listing root d)
        → (x : Text) × (is_some (lookup (under root x) ((key, fields) ∷ d)) ≡ true)
          × (name ≡ shown x) =
      λ m.
        let (x, there, e) = listing-Member root name d m in
        (x, still (under root x) key fields d there, e) in
    elim (Option-cases (behind root key)) [
      | inl elsewhere ↦ later (rw elsewhere at m)
      | inr (x, e) ↦ elim (rw e at m) [
        | inl here ↦ (x, rw ((==_iff key (under root x)).1 (under-behind root key x e)) refl, here)
        | inr m' ↦ later m'
      ]
    ]

-- The keys other than `path`.
abbrev removed : Text → MemoryVault → MemoryVault
removed path [] = []
removed path ((key, fields) ∷ d) =
    let rest = removed path d in if key == path then rest else (key, fields) ∷ rest

lookup-removed :
    (path key : Text) (d : MemoryVault)
    → lookup key (removed path d) ≡ (if path == key then none else lookup key d)
unfolding lookup
lookup-removed path key [] = ground arith
lookup-removed path key ((k, fields) ∷ d) =
    ground (arith, lookup-removed path key d, ==_iff k path, ==_iff k key, ==_iff path key)

abbrev pub memory_client : VaultClient MemoryVault
memory_client = record {
  read_secret = λ path s. (ok (lookup path s), s);
  write_secret = λ path fields s. (ok tt, insert path fields s);
  delete_secret = λ path s. (ok (is_some (lookup path s)), removed path s);
  secret_exists = λ path s. (ok (is_some (lookup path s)), s);
  list_secrets = λ root s. (ok (listing root s), s);
  now = λ s. 1000;
}

Lists-listing :
    (root : Text) (d : MemoryVault) → Lists (λ path. lookup path d) root (listing root d)
Lists-listing root d = record {
  sound = λ k m.
      let (x, there, e) = listing-Member root k d m in
      elim (IsSegment-or_folder x) [
        | inl seg ↦
            subst (KeyBelow (λ path. lookup path d) root) (sym (e ∙ shown_segment x seg))
              (leaf x seg there)
        | inr (name, rest, x_eq, seg) ↦
            subst (KeyBelow (λ path. lookup path d) root)
              (sym (e ∙ ap shown x_eq ∙ shown_folder name rest seg))
              (folder name rest seg
                (subst (λ x. is_some (lookup (under root x) d) ≡ true) x_eq there))
      ];
  complete = λ k below. complete k below;
}
  where
    complete : (k : Text) → KeyBelow (λ path. lookup path d) root k → Member k (listing root d)
    complete k (leaf name seg there) =
        subst (λ n. Member n (listing root d)) (shown_segment name seg)
          (Member-listing root name d there)
    complete k (folder name rest seg there) =
        subst (λ n. Member n (listing root d)) (shown_folder name rest seg)
          (Member-listing root (under name rest) d there)

pub memory_client-IsVault : IsVault memory_client
memory_client-IsVault = record {
  secrets = λ s path. lookup path s;
  read = λ path s. refl;
  exists = λ path s. refl;
  writes = λ path fields s. refl;
  written = λ path fields s. fun_ext λ key. lookup-insert path key fields s;
  deletes = λ path s. refl;
  deleted = λ path s. fun_ext λ key. lookup-removed path key s;
  lists = λ root s. (listing root s, refl, Lists-listing root s);
}

pub empty_vault : (key : Text) → memory_client-IsVault.secrets [] key ≡ none
unfolding memory_client-IsVault lookup
empty_vault key = refl

abbrev read_time : Text → Result Time
read_time (c ∷ t ∷ []) = ok t
read_time s = err (value_error)

-- Times written as a letter and the number.
abbrev pub plain_formats : Formats
plain_formats = record {
  isoformat = λ t. b'T' ∷ t ∷ [];
  fromisoformat = read_time;
  repr = λ value. [];
}

pub plain_formats-IsIso : IsIso plain_formats
plain_formats-IsIso = record { written = λ t. refl; read_back = λ t. refl }
