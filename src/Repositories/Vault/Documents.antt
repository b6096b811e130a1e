-- ===== src/Repositories/Vault/Documents.antt =====
-- The documents of the Vault stores. The code gives no meaning to a document whose names, mail
-- address or granting subject is neither a text nor `None`; its value is read as missing here.
use gotfr_sec.Prelude.{true, false, Option, none, some, List, [], ◌==◌, if◌then◌else◌}
use gotfr_sec.Prelude.Text.{Text, text, text_eq}
use gotfr_sec.Domain.Errors.{Result, ok, err, type_error}
use gotfr_sec.Domain.Models.{
  Time, UserProfile, GroupDefinition, UserGroupMembership, IssuedTokenRecord, TokenStatus, active,
  revoked, unrecognised,
}
use gotfr_sec.Repositories.Json.{
  Json, null, bool, str, array, nil, Fields, end, field, get, get_or, entry, item, as_bool, as_str,
  str_items, str_or_none, json_option, text_items,
}
use gotfr_sec.Repositories.Vault.Client.{Formats}

infixl 5 ◌>>=◌
abbrev ◌>>=◌ : {A B : Type 0} → Result A → (A → Result B) → Result B
ok value >>= next = next value
err raised >>= next = err raised

abbrev pub text_of : Json → Option Text
text_of (str s) = some s
text_of value = none

-- `value if isinstance(value, str) else None`.
abbrev pub only_str : Json → Json
only_str (str s) = str s
only_str value = null

abbrev or_fallback : Option Time → Time → Time
or_fallback none fallback = fallback
or_fallback (some t) fallback = t

module _ (f : Formats) where
  abbrev read_text : Json → Result (Option Time)
  read_text (str s) = do t ← f.fromisoformat s; ok (some t)
  read_text value = err type_error

  -- `_parse_datetime`.
  unfoldable pub parse_datetime : Json → Result (Option Time)
  parse_datetime value = if as_bool value then read_text value else ok none

  unfoldable pub serialize_profile : UserProfile → Fields
  serialize_profile profile = field (text "keycloak_sub") (str profile.keycloak_sub) (
      field (text "registered_at") (str (f.isoformat profile.registered_at)) (
        field (text "updated_at") (str (f.isoformat profile.updated_at)) (
          field (text "display_name") (json_option profile.display_name)
            (field (text "email") (json_option profile.email) end))))

  -- `fallback` is the time of the call.
  unfoldable pub deserialize_profile : Time → Fields → Result UserProfile
  deserialize_profile fallback fields = do
    registered_at ← parse_datetime (get (text "registered_at") fields)
    updated_at ← parse_datetime (get (text "updated_at") fields)
    keycloak_sub ← item (text "keycloak_sub") fields
    ok (record {
      keycloak_sub = as_str f.repr keycloak_sub;
      registered_at = or_fallback registered_at fallback;
      updated_at = or_fallback updated_at fallback;
      display_name = text_of (get (text "display_name") fields);
      email = text_of (get (text "email") fields);
    })

  unfoldable pub serialize_group : GroupDefinition → Fields
  serialize_group group = field (text "name") (str group.name) (
      field (text "description") (json_option group.description) (
        field (text "is_system") (bool group.is_system) (
          field (text "is_active") (bool group.is_active)
            (field (text "created_at") (str (f.isoformat group.created_at)) end))))

  unfoldable pub deserialize_group : Time → Fields → Result GroupDefinition
  deserialize_group fallback fields = do
    created_at ← parse_datetime (only_str (get (text "created_at") fields))
    name ← item (text "name") fields
    ok (record {
      name = as_str f.repr name;
      description = str_or_none f.repr (get (text "description") fields);
      is_system = as_bool (get_or (bool false) (entry (text "is_system") fields));
      is_active = as_bool (get_or (bool true) (entry (text "is_active") fields));
      created_at = or_fallback created_at fallback;
    })

  unfoldable pub serialize_membership : UserGroupMembership → Fields
  serialize_membership membership = field (text "keycloak_sub") (str membership.keycloak_sub) (
      field (text "group_name") (str membership.group_name) (
        field (text "granted_at") (str (f.isoformat membership.granted_at))
          (field (text "granted_by_sub") (json_option membership.granted_by_sub) end)))

  unfoldable pub deserialize_membership : Time → Fields → Result UserGroupMembership
  deserialize_membership fallback fields = do
    granted_at ← parse_datetime (get (text "granted_at") fields)
    keycloak_sub ← item (text "keycloak_sub") fields
    group_name ← item (text "group_name") fields
    ok (record {
      keycloak_sub = as_str f.repr keycloak_sub;
      group_name = as_str f.repr group_name;
      granted_at = or_fallback granted_at fallback;
      granted_by_sub = text_of (get (text "granted_by_sub") fields);
    })

  abbrev pub status_text : TokenStatus → Text
  status_text active = text "active"
  status_text revoked = text "revoked"
  status_text (unrecognised name) = name

  abbrev pub status_of : Text → TokenStatus
  status_of name =
      if name == text "active"
      then active
      else if name == text "revoked"
      then revoked
      else unrecognised name

  abbrev pub time_json : Option Time → Json
  time_json none = null
  time_json (some t) = str (f.isoformat t)

  unfoldable pub serialize_token : IssuedTokenRecord → Fields
  serialize_token token = field (text "token_id") (str token.token_id) (
      field (text "owner_sub") (str token.owner_sub) (
        field (text "granted_groups") (array (text_items token.granted_groups)) (
          field (text "status") (str (status_text token.status)) (
            field (text "issued_at") (str (f.isoformat token.issued_at)) (
              field (text "expires_at") (time_json token.expires_at) (
                field (text "issued_by_sub") (json_option token.issued_by_sub) (
                  field (text "jwt_hash") (json_option token.jwt_hash) (
                    field (text "pending_reveal") (bool token.pending_reveal)
                      (field (text "revoked_at") (time_json token.revoked_at) end)))))))))

  abbrev groups_of : Json → List Text
  groups_of (array items) = str_items f.repr items
  groups_of value = []

  unfoldable pub deserialize_token : Time → Fields → Result IssuedTokenRecord
  deserialize_token fallback fields = do
    issued_at ← parse_datetime (only_str (get (text "issued_at") fields))
    expires_at ← parse_datetime (only_str (get (text "expires_at") fields))
    revoked_at ← parse_datetime (only_str (get (text "revoked_at") fields))
    token_id ← item (text "token_id") fields
    owner_sub ← item (text "owner_sub") fields
    ok (record {
      token_id = as_str f.repr token_id;
      owner_sub = as_str f.repr owner_sub;
      granted_groups = groups_of (get_or (array nil) (entry (text "granted_groups") fields));
      status =
          status_of (as_str f.repr (get_or (str (text "active")) (entry (text "status") fields)));
      issued_at = or_fallback issued_at fallback;
      expires_at = expires_at;
      issued_by_sub = str_or_none f.repr (get (text "issued_by_sub") fields);
      jwt_hash = str_or_none f.repr (get (text "jwt_hash") fields);
      pending_reveal = as_bool (get_or (bool false) (entry (text "pending_reveal") fields));
      revoked_at = revoked_at;
    })
