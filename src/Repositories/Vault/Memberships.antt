-- ===== src/Repositories/Vault/Memberships.antt =====
-- The list of a user's memberships as a document of Vault: the reading of `_load_memberships` and the
-- writing of `_store_memberships` (app/repositories/vault_groups.py).
use gotfr_sec.Prelude.{Option, none, some, List, [], ◌∷◌, if◌then◌else◌}
use gotfr_sec.Prelude.Text.{Text, text, text_eq}
use gotfr_sec.Prelude.Text.Order.{text_lt}
use gotfr_sec.Domain.Errors.{Result, ok, err}
use gotfr_sec.Domain.Models.{Time, UserGroupMembership}
use gotfr_sec.Repositories.Json.{
  Json, array, object, str, Items, nil, cons, Fields, end, field, get_or, entry,
}
use gotfr_sec.Repositories.Vault.Client.{Formats}
use gotfr_sec.Repositories.Vault.Documents.{serialize_membership, deserialize_membership}

-- `sorted(memberships, key=lambda membership: membership.group_name)`: equal keys in their order.
unfoldable pub insert_membership :
    UserGroupMembership → List UserGroupMembership → List UserGroupMembership
insert_membership m [] = m ∷ []
insert_membership m (n ∷ ns) =
    if text_lt n.group_name m.group_name then n ∷ insert_membership m ns else m ∷ n ∷ ns

unfoldable pub sort_memberships : List UserGroupMembership → List UserGroupMembership
sort_memberships [] = []
sort_memberships (m ∷ ms) = insert_membership m (sort_memberships ms)

module _ (f : Formats) where
  abbrev and_then :
      Result UserGroupMembership
      → Result (List UserGroupMembership)
      → Result (List UserGroupMembership)
  and_then (err e) rest = err e
  and_then (ok m) (err e) = err e
  and_then (ok m) (ok ms) = ok (m ∷ ms)

  -- The comprehension of `_load_memberships`: items that are no dictionaries are skipped.
  unfoldable pub read_memberships : Time → Items → Result (List UserGroupMembership)
  read_memberships now nil = ok []
  read_memberships now (cons (object fields) rest) =
      and_then (deserialize_membership f now fields) (read_memberships now rest)
  read_memberships now (cons value rest) = read_memberships now rest

  abbrev memberships_of : Time → Json → Result (List UserGroupMembership)
  memberships_of now (array items) = read_memberships now items
  memberships_of now value = ok []

  -- A missing and an empty document have no memberships.
  abbrev pub memberships_in : Time → Option Fields → Result (List UserGroupMembership)
  memberships_in now none = ok []
  memberships_in now (some end) = ok []
  memberships_in now (some (field name value rest)) =
      memberships_of now (get_or (array nil) (entry (text "memberships") (field name value rest)))

  unfoldable pub membership_items : List UserGroupMembership → Items
  membership_items [] = nil
  membership_items (m ∷ ms) = cons (object (serialize_membership f m)) (membership_items ms)

  unfoldable pub memberships_document : Text → List UserGroupMembership → Fields
  memberships_document sub ms =
      field (text "keycloak_sub") (str sub)
        (field (text "memberships") (array (membership_items (sort_memberships ms))) end)
