-- ===== src/Repositories/Vault/RoundTrip.antt =====
-- A document that was written is read back as the record that it was written from.
use gotfr_sec.Prelude.{◌≡◌, refl, Option, none, some, List, [], ◌∷◌, list_beq}
use gotfr_sec.Prelude.Text.{Text, text_eq}
use gotfr_sec.Domain.Errors.{ok}
use gotfr_sec.Domain.Models.{
  Time, UserProfile, GroupDefinition, UserGroupMembership, IssuedTokenRecord, TokenStatus, active,
  revoked, unrecognised,
}
use gotfr_sec.Repositories.Lawful.{IsNamed}
use gotfr_sec.Repositories.Json.{
  str, get, entry, item, str_items, text_items, json_option, str_or_none,
}
use gotfr_sec.Repositories.Vault.Client.{Formats, IsIso}
use gotfr_sec.Repositories.Vault.Documents.{
  parse_datetime, serialize_profile, deserialize_profile, serialize_group, deserialize_group,
  serialize_membership, deserialize_membership, serialize_token, deserialize_token, text_of,
  only_str, status_of, status_text, time_json,
}

module _ (f : Formats) (iso : IsIso f) where
  parse_datetime-isoformat : (t : Time) → parse_datetime f (str (f.isoformat t)) ≡ ok (some t)
  unfolding parse_datetime
  parse_datetime-isoformat t = rw (iso.written t, iso.read_back t) refl

  text_of-json_option : (o : Option Text) → text_of (json_option o) ≡ o
  text_of-json_option none = refl
  text_of-json_option (some s) = refl

  str_or_none-json_option : (o : Option Text) → str_or_none f.repr (json_option o) ≡ o
  str_or_none-json_option none = refl
  str_or_none-json_option (some s) = refl

  str_items-text_items : (ss : List Text) → str_items f.repr (text_items ss) ≡ ss
  unfolding str_items text_items
  str_items-text_items [] = refl
  str_items-text_items (s ∷ ss) = rw (str_items-text_items ss) refl

  parse_datetime-time_json : (o : Option Time) → parse_datetime f (only_str (time_json f o)) ≡ ok o
  unfolding parse_datetime
  parse_datetime-time_json none = refl
  parse_datetime-time_json (some t) = rw (iso.written t, iso.read_back t) refl

  pub deserialize_profile-serialize_profile :
      (now : Time) (x : UserProfile) → deserialize_profile f now (serialize_profile f x) ≡ ok x
  unfolding serialize_profile deserialize_profile get item entry list_beq
  deserialize_profile-serialize_profile now x =
      rw
        (
          parse_datetime-isoformat x.registered_at,
          parse_datetime-isoformat x.updated_at,
          text_of-json_option x.display_name,
          text_of-json_option x.email,
        )
        refl

  pub deserialize_group-serialize_group :
      (now : Time) (x : GroupDefinition) → deserialize_group f now (serialize_group f x) ≡ ok x
  unfolding serialize_group deserialize_group get item entry list_beq
  deserialize_group-serialize_group now x =
      rw (parse_datetime-isoformat x.created_at, str_or_none-json_option x.description) refl

  pub deserialize_membership-serialize_membership :
      (now : Time) (x : UserGroupMembership)
      → deserialize_membership f now (serialize_membership f x) ≡ ok x
  unfolding serialize_membership deserialize_membership get item entry list_beq
  deserialize_membership-serialize_membership now x =
      rw (parse_datetime-isoformat x.granted_at, text_of-json_option x.granted_by_sub) refl

  status_of-status_text : (s : TokenStatus) → IsNamed s → status_of f (status_text f s) ≡ s
  unfolding list_beq
  status_of-status_text active named = refl
  status_of-status_text revoked named = refl
  status_of-status_text (unrecognised name) named = absurd named

  -- A token whose status is `active` or `revoked` is read back from its document as it was written,
  -- whatever the time of the reading.
  pub deserialize_token-serialize_token :
      (now : Time) (x : IssuedTokenRecord)
      → IsNamed x.status
      → deserialize_token f now (serialize_token f x) ≡ ok x
  unfolding serialize_token deserialize_token get item entry list_beq
  deserialize_token-serialize_token now x named =
      rw
        (
          parse_datetime-isoformat x.issued_at,
          parse_datetime-time_json x.expires_at,
          parse_datetime-time_json x.revoked_at,
          str_items-text_items x.granted_groups,
          status_of-status_text x.status named,
          str_or_none-json_option x.issued_by_sub,
          str_or_none-json_option x.jwt_hash,
        )
        refl
