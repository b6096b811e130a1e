-- ===== src/Repositories/VaultPaths/Apart.antt =====
-- Which keys of Vault are different, whatever names they are made of.
use gotfr_sec.Prelude.{◌≡◌, ◌≢◌, sym, ap, ◌∙◌}
use gotfr_sec.Prelude.Text.{Text, text, text_eq}
use gotfr_sec.Repositories.VaultPaths.{
  under, under_assoc, under_cancel, under_split, IsSegment, users_root, user_root, groups_root,
  tokens_root, user_profile_path, user_groups_path, user_token_path, group_definition_path,
  group_token_path, token_path, user_token_path-eq,
}
use gotfr_sec.Repositories.VaultPaths.Segments.{
  definition-IsSegment, groups-IsSegment, groups_not_tokens, profile-IsSegment, profile_not_groups,
  tokens-IsSegment, under_last, users-IsSegment, users_not_groups, users_not_tokens,
}

-- Two texts that lie in different folders of one folder.
pub folders_apart :
    (root u v x y : Text)
    → IsSegment u
    → IsSegment v
    → u ≢ v
    → under (under root u) x ≢ under (under root v) y
folders_apart root u v x y hu hv differs h =
    let paths = sym (under_assoc root u x) ∙ h ∙ under_assoc root v y in
    differs (under_split u v x y hu hv (under_cancel root _ _ paths)).0

module _ (path_prefix : Text) where
  abbrev pub users : Text
  users = users_root path_prefix

  pub user_profile_path-eq :
      (sub : Text) → user_profile_path path_prefix sub ≡ under users (under sub (text "profile"))
  unfolding user_profile_path
  user_profile_path-eq sub = under_assoc users sub (text "profile")

  pub user_groups_path-eq :
      (sub : Text) → user_groups_path path_prefix sub ≡ under users (under sub (text "groups"))
  unfolding user_groups_path
  user_groups_path-eq sub = under_assoc users sub (text "groups")

  pub group_definition_path-eq :
      (n : Text)
      → group_definition_path path_prefix n
        ≡ under (groups_root path_prefix) (under n (text "definition"))
  unfolding group_definition_path
  group_definition_path-eq n = under_assoc (groups_root path_prefix) n (text "definition")

  pub group_token_path-eq :
      (g id : Text)
      → group_token_path path_prefix g id
        ≡ under (groups_root path_prefix) (under (under g (text "tokens")) id)
  unfolding group_token_path
  group_token_path-eq g id =
      ap (λ r. under r id) (under_assoc (groups_root path_prefix) g (text "tokens"))
      ∙ under_assoc (groups_root path_prefix) (under g (text "tokens")) id

  pub user_profile_path-same :
      (a b : Text) → user_profile_path path_prefix a ≡ user_profile_path path_prefix b → a ≡ b
  unfolding user_profile_path
  user_profile_path-same a b h =
      under_cancel users a b
        (under_last _ _ (text "profile") (text "profile") profile-IsSegment profile-IsSegment h).0

  pub user_groups_path-same :
      (a b : Text) → user_groups_path path_prefix a ≡ user_groups_path path_prefix b → a ≡ b
  unfolding user_groups_path
  user_groups_path-same a b h =
      under_cancel users a b
        (under_last _ _ (text "groups") (text "groups") groups-IsSegment groups-IsSegment h).0

  pub group_definition_path-same :
      (a b : Text)
      → group_definition_path path_prefix a ≡ group_definition_path path_prefix b
      → a ≡ b
  unfolding group_definition_path
  group_definition_path-same a b h =
      under_cancel (groups_root path_prefix) a b
        (under_last _ _ (text "definition") (text "definition") definition-IsSegment
          definition-IsSegment h).0

  pub token_path-same : (a b : Text) → token_path path_prefix a ≡ token_path path_prefix b → a ≡ b
  unfolding token_path
  token_path-same a b h = under_cancel (tokens_root path_prefix) a b h

  pub user_token_path-same :
      (s s' id id' : Text)
      → IsSegment id
      → IsSegment id'
      → user_token_path path_prefix s id ≡ user_token_path path_prefix s' id'
      → (s ≡ s') × (id ≡ id')
  unfolding user_token_path
  user_token_path-same s s' id id' hid hid' h =
      let (front, same) = under_last _ _ id id' hid hid' h in
      let (roots, _) =
        under_last _ _ (text "tokens") (text "tokens") tokens-IsSegment tokens-IsSegment front in
      (under_cancel users s s' roots, same)

  pub profile_groups_apart :
      (a b : Text) → user_profile_path path_prefix a ≢ user_groups_path path_prefix b
  unfolding user_profile_path user_groups_path
  profile_groups_apart a b h =
      let (_, same) =
        under_last (user_root path_prefix a) (user_root path_prefix b) (text "profile")
          (text "groups") profile-IsSegment groups-IsSegment h in
      profile_not_groups same

  pub profile_index_apart :
      (a s id : Text)
      → IsSegment id
      → id ≢ text "profile"
      → user_profile_path path_prefix a ≢ user_token_path path_prefix s id
  unfolding user_profile_path user_token_path
  profile_index_apart a s id hid differs h =
      differs (sym (under_last _ _ (text "profile") id profile-IsSegment hid h).1)

  pub groups_index_apart :
      (a s id : Text)
      → IsSegment id
      → id ≢ text "groups"
      → user_groups_path path_prefix a ≢ user_token_path path_prefix s id
  unfolding user_groups_path user_token_path
  groups_index_apart a s id hid differs h =
      differs (sym (under_last _ _ (text "groups") id groups-IsSegment hid h).1)

  pub definition_index_apart :
      (n g id : Text)
      → IsSegment id
      → id ≢ text "definition"
      → group_definition_path path_prefix n ≢ group_token_path path_prefix g id
  unfolding group_definition_path group_token_path
  definition_index_apart n g id hid differs h =
      differs (sym (under_last _ _ (text "definition") id definition-IsSegment hid h).1)

  pub users_groups_apart : (x y : Text) → under users x ≢ under (groups_root path_prefix) y
  users_groups_apart x y =
      folders_apart path_prefix (text "users") (text "groups") x y users-IsSegment groups-IsSegment
        users_not_groups

  pub users_tokens_apart : (x y : Text) → under users x ≢ under (tokens_root path_prefix) y
  users_tokens_apart x y =
      folders_apart path_prefix (text "users") (text "tokens") x y users-IsSegment tokens-IsSegment
        users_not_tokens

  pub groups_tokens_apart :
      (x y : Text) → under (groups_root path_prefix) x ≢ under (tokens_root path_prefix) y
  groups_tokens_apart x y =
      folders_apart path_prefix (text "groups") (text "tokens") x y groups-IsSegment
        tokens-IsSegment groups_not_tokens

  -- Keys of different kinds, by the folders that they lie in.
  pub profile_definition_apart :
      (a n : Text) → user_profile_path path_prefix a ≢ group_definition_path path_prefix n
  profile_definition_apart a n h =
      users_groups_apart _ _ (sym (user_profile_path-eq a) ∙ h ∙ group_definition_path-eq n)

  pub profile_token_apart :
      (a id : Text) → user_profile_path path_prefix a ≢ token_path path_prefix id
  unfolding token_path
  profile_token_apart a id h = users_tokens_apart _ _ (sym (user_profile_path-eq a) ∙ h)

  pub groups_definition_apart :
      (a n : Text) → user_groups_path path_prefix a ≢ group_definition_path path_prefix n
  groups_definition_apart a n h =
      users_groups_apart _ _ (sym (user_groups_path-eq a) ∙ h ∙ group_definition_path-eq n)

  pub groups_token_apart :
      (a id : Text) → user_groups_path path_prefix a ≢ token_path path_prefix id
  unfolding token_path
  groups_token_apart a id h = users_tokens_apart _ _ (sym (user_groups_path-eq a) ∙ h)

  pub index_definition_apart :
      (s id n : Text) → user_token_path path_prefix s id ≢ group_definition_path path_prefix n
  index_definition_apart s id n h =
      users_groups_apart _ _
        (sym (user_token_path-eq path_prefix s id) ∙ h ∙ group_definition_path-eq n)

  pub index_token_apart :
      (s id x : Text) → user_token_path path_prefix s id ≢ token_path path_prefix x
  unfolding token_path
  index_token_apart s id x h =
      users_tokens_apart _ _ (sym (user_token_path-eq path_prefix s id) ∙ h)

  pub definition_token_apart :
      (n id : Text) → group_definition_path path_prefix n ≢ token_path path_prefix id
  unfolding token_path
  definition_token_apart n id h = groups_tokens_apart _ _ (sym (group_definition_path-eq n) ∙ h)

  pub token_users_apart : (id x : Text) → token_path path_prefix id ≢ under users x
  unfolding token_path
  token_users_apart id x h = users_tokens_apart _ _ (sym h)

  pub definition_users_apart : (n x : Text) → group_definition_path path_prefix n ≢ under users x
  definition_users_apart n x h = users_groups_apart _ _ (sym h ∙ group_definition_path-eq n)

  pub group_index_users_apart : (g id x : Text) → group_token_path path_prefix g id ≢ under users x
  group_index_users_apart g id x h = users_groups_apart _ _ (sym h ∙ group_token_path-eq g id)

  pub group_index_token_apart :
      (g id x : Text) → group_token_path path_prefix g id ≢ token_path path_prefix x
  unfolding token_path
  group_index_token_apart g id x h = groups_tokens_apart _ _ (sym (group_token_path-eq g id) ∙ h)
