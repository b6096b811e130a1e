-- ===== src/Services/Tokens/Revoke.antt =====
-- `get_token` and `revoke_token`: reading a record, and ending it.
use gotfr_sec.Prelude.{
  ◌⊎◌, ◌≡◌, refl, false, Bool-cases, Option, none, some, inl, inr, if◌then◌else◌,
}
use gotfr_sec.Prelude.Text.{Text}
use gotfr_sec.Domain.Errors.{ok, err, token_not_found}
use gotfr_sec.Domain.Models.{Time, IssuedTokenRecord, revoked}
use gotfr_sec.Repositories.View.{View, with_token}
use gotfr_sec.Repositories.Interfaces.{RepositoryBundle}
use gotfr_sec.Repositories.Lawful.{Reading, IsLawful}
use gotfr_sec.Exec.{Platform, World, time_of}
use gotfr_sec.Services.Contract.{map_result, Ends, Ends-same, Ends-audited}
use gotfr_sec.Services.Tokens.{
  found_token, get_token_or_raise, get_token, is_revoked, revoke_found, revoke_body, revoke_token,
}

-- The record after its revocation at a time: the first revocation stays.
abbrev pub revoked_record : Time → IssuedTokenRecord → IssuedTokenRecord
revoked_record now t =
    if is_revoked t.status then t else record t { status = revoked; revoked_at = some now }

abbrev pub revoked_view : Time → Option IssuedTokenRecord → View → View
revoked_view now none v = v
revoked_view now (some t) v = if is_revoked t.status then v else with_token (revoked_record now t) v

module _ {S : Type 0} (p : Platform) (r : RepositoryBundle S) (reading : Reading S)
    (law : IsLawful reading r) where
  get_token_or_raise_lem :
      (id : Text) (w : World S)
      → reading.IsValid w.store
      → get_token_or_raise p r id w ≡ (found_token id ((reading.view w.store).token id), w)
  unfolding get_token_or_raise
  get_token_or_raise_lem id w valid = rw (law.token_get w.store valid id)

  pub get_token_lem :
      (id actor_sub : Text) (cid : Option Text) (w : World S)
      → reading.IsValid w.store
      → let v = reading.view w.store in
        Ends reading (get_token p r id actor_sub cid w) (found_token id (v.token id)) v
  unfolding get_token
  get_token_lem id actor_sub cid w valid =
      Ends-audited reading p _ _ _ w
        (rw (get_token_or_raise_lem id w valid) (Ends-same reading _ _ w refl valid))

  -- `get_token` returns the record that is stored under the id, or raises `TokenNotFoundError` where
  -- none is, and changes no store.
  pub get_token-Ends :
      (id actor_sub : Text) (cid : Option Text) (w : World S)
      → reading.IsValid w.store
      → let v = reading.view w.store in
        let outcome = get_token p r id actor_sub cid w in
        ((t : IssuedTokenRecord) × (v.token id ≡ some t) × Ends reading outcome (ok t) v)
        ⊎ ((v.token id ≡ none) × Ends reading outcome (err (token_not_found id)) v)
  get_token-Ends id actor_sub cid w valid = go ((reading.view w.store).token id) refl
    where
      go :
          (o : Option IssuedTokenRecord)
          → (reading.view w.store).token id ≡ o
          → let v = reading.view w.store in
            let outcome = get_token p r id actor_sub cid w in
            ((t : IssuedTokenRecord) × (v.token id ≡ some t) × Ends reading outcome (ok t) v)
            ⊎ ((v.token id ≡ none) × Ends reading outcome (err (token_not_found id)) v)
      go none h = let ends = get_token_lem id actor_sub cid w valid in inr (h, rw h at ends)
      go (some t) h = let ends = get_token_lem id actor_sub cid w valid in inl (t, h, rw h at ends)

  module _ (id : Text) (t : IssuedTokenRecord) (w : World S) (valid : reading.IsValid w.store)
      (found : (reading.view w.store).token id ≡ some t) where
    abbrev v : View
    v = reading.view w.store

    abbrev RevokeEnds : Option Time → Type 0
    RevokeEnds now =
        let at = time_of p now w in
        Ends reading (revoke_found p r t now w) (ok (revoked_record at t))
          (revoked_view at (some t) v)

    store-Ends : (now : Option Time) → is_revoked t.status ≡ false → RevokeEnds now
    unfolding revoke_found
    store-Ends none new =
        let fresh = record t { status = revoked; revoked_at = some (p.clock w.clock_reads) } in
        let key = law.token_key w.store valid id t found in
        let y = law.token_upsert w.store valid fresh (rw key.0 key.1) key.2 tt in
        rw new (record { returned = y.returned; valid = y.valid; seen = y.seen })
    store-Ends (some at) new =
        let fresh = record t { status = revoked; revoked_at = some at } in
        let key = law.token_key w.store valid id t found in
        let y = law.token_upsert w.store valid fresh (rw key.0 key.1) key.2 tt in
        rw new (record { returned = y.returned; valid = y.valid; seen = y.seen })

    revoke_found-Ends : (now : Option Time) → RevokeEnds now
    revoke_found-Ends now = elim (Bool-cases (is_revoked t.status)) [
      | inl old ↦ unfold revoke_found in rw old (Ends-same reading _ (ok t) w refl valid)
      | inr new ↦ store-Ends now new
    ]

  -- `revoke_token` raises `TokenNotFoundError` for an unknown id and changes no store; a record that
  -- is revoked already is returned as it is; any other is stored and returned with the status
  -- `revoked` and the time, and nothing else about it changes.
  pub revoke_token-Ends :
      (id actor_sub : Text) (cid : Option Text) (now : Option Time) (w : World S)
      → reading.IsValid w.store
      → let v = reading.view w.store in
        let at = time_of p now w in
        Ends reading
          (revoke_token p r id actor_sub cid now w)
          (map_result (revoked_record at) (found_token id (v.token id)))
          (revoked_view at (v.token id) v)
  unfolding revoke_token
  revoke_token-Ends id actor_sub cid now w valid =
      Ends-audited reading p _ _ _ w (go ((reading.view w.store).token id) refl)
    where
      go :
          (o : Option IssuedTokenRecord)
          → (reading.view w.store).token id ≡ o
          → Ends reading
              (revoke_body p r id now w)
              (map_result (revoked_record (time_of p now w)) (found_token id o))
              (revoked_view (time_of p now w) o (reading.view w.store))
      go none h =
          unfold revoke_body in
          rw (get_token_or_raise_lem id w valid, h)
            (Ends-same reading _ (err (token_not_found id)) w refl valid)
      go (some t) h =
          unfold revoke_body in
          rw (get_token_or_raise_lem id w valid, h) (revoke_found-Ends id t w valid h now)
