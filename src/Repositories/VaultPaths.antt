-- ===== src/Repositories/VaultPaths.antt =====
-- app/repositories/vault_paths.py: `VaultPathLayout`, the keys under which Vault holds records.
pub mod Segments
pub mod Apart
use gotfr_sec.Prelude.{◌≡◌, refl, sym, ◌∙◌, ◌≢◌, false, [], ◌∷◌, ◌++◌, All, nat_beq, arith}
use gotfr_sec.Prelude.Text.{Text, text}

-- `f"{root}/{name}"`.
abbrev pub under : Text → Text → Text
under root name = root ++ b'/' ∷ name

module _ (path_prefix : Text) where
  abbrev pub users_root : Text
  users_root = under path_prefix (text "users")

  abbrev pub user_root : Text → Text
  user_root sub = under users_root sub

  unfoldable pub user_profile_path : Text → Text
  user_profile_path sub = under (user_root sub) (text "profile")

  unfoldable pub user_groups_path : Text → Text
  user_groups_path sub = under (user_root sub) (text "groups")

  abbrev pub user_tokens_root : Text → Text
  user_tokens_root sub = under (user_root sub) (text "tokens")

  unfoldable pub user_token_path : Text → Text → Text
  user_token_path sub token_id = under (user_tokens_root sub) token_id

  abbrev pub groups_root : Text
  groups_root = under path_prefix (text "groups")

  abbrev pub group_root : Text → Text
  group_root group = under groups_root group

  unfoldable pub group_definition_path : Text → Text
  group_definition_path group = under (group_root group) (text "definition")

  abbrev pub group_tokens_root : Text → Text
  group_tokens_root group = under (group_root group) (text "tokens")

  unfoldable pub group_token_path : Text → Text → Text
  group_token_path group token_id = under (group_tokens_root group) token_id

  abbrev pub tokens_root : Text
  tokens_root = under path_prefix (text "tokens")

  unfoldable pub token_path : Text → Text
  token_path token_id = under tokens_root token_id

  unfoldable pub signing_key_path : Text
  signing_key_path = under path_prefix (text "signing/runtime")

-- A text without a slash.
abbrev pub IsSegment : Text → Type 0
IsSegment = All (λ c. nat_beq c b'/' ≡ false)

pub under_assoc : (a b c : Text) → under (under a b) c ≡ under a (under b c)
under_assoc [] b c = refl
under_assoc (x ∷ a) b c = rw (under_assoc a b c) refl

pub under_cancel : (root a b : Text) → under root a ≡ under root b → a ≡ b
under_cancel [] a b h = ground arith
under_cancel (x ∷ root) a b h = under_cancel root a b (ground arith)

pub under_split :
    (a b x y : Text) → IsSegment a → IsSegment b → under a x ≡ under b y → (a ≡ b) × (x ≡ y)
under_split [] [] x y ha hb h = ground arith
under_split [] (d ∷ b) x y ha hb h = absurd (ground (arith, hb.0))
under_split (c ∷ a) [] x y ha hb h = absurd (ground (arith, ha.0))
under_split (c ∷ a) (d ∷ b) x y ha hb h =
    let (same, rest) = under_split a b x y ha.1 hb.1 (ground arith) in (ground (arith, same), rest)

pub user_token_path-eq :
    (path_prefix sub id : Text)
    → user_token_path path_prefix sub id
      ≡ under (users_root path_prefix) (under sub (under (text "tokens") id))
unfolding user_token_path
user_token_path-eq path_prefix sub id =
    under_assoc (user_root path_prefix sub) (text "tokens") id
    ∙ under_assoc (users_root path_prefix) sub (under (text "tokens") id)

-- Two users' tokens stand under one key only if the users and the tokens are the same, for subjects
-- without a slash.
pub user_token_path-injective :
    (path_prefix sub sub' id id' : Text)
    → IsSegment sub
    → IsSegment sub'
    → user_token_path path_prefix sub id ≡ user_token_path path_prefix sub' id'
    → (sub ≡ sub') × (id ≡ id')
user_token_path-injective path_prefix sub sub' id id' hs hs' h =
    let paths =
      sym (user_token_path-eq path_prefix sub id) ∙ h ∙ user_token_path-eq path_prefix sub' id' in
    let (same, rest) =
      under_split sub sub' _ _ hs hs' (under_cancel (users_root path_prefix) _ _ paths) in
    (same, under_cancel (text "tokens") id id' rest)

-- A user's profile and the list of a user's groups stand under different keys, whoever they are.
pub user_profile_path-user_groups_path :
    (path_prefix sub sub' : Text)
    → IsSegment sub
    → IsSegment sub'
    → user_profile_path path_prefix sub ≢ user_groups_path path_prefix sub'
unfolding user_profile_path user_groups_path
user_profile_path-user_groups_path path_prefix sub sub' hs hs' h =
    let paths =
      sym (under_assoc (users_root path_prefix) sub (text "profile"))
      ∙ h
      ∙ under_assoc (users_root path_prefix) sub' (text "groups") in
    let (_, rest) =
      under_split sub sub' _ _ hs hs' (under_cancel (users_root path_prefix) _ _ paths) in
    absurd (cc)
