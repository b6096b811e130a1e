-- ===== src/Exec.antt =====
-- What a service method runs in: the state of the stores, the audit log, and the clock and random
-- source of the process. A method may raise; what was written before stays written.
pub mod Audited
use gotfr_sec.Prelude.{
  ℕ, suc, ◌≡◌, refl, Bool, true, false, Option, none, some, List, [], ◌∷◌, ◌++◌, if◌then◌else◌,
}
use gotfr_sec.Prelude.Text.{Text, CaseTable}
use gotfr_sec.Domain.Errors.{Error, Result, ok, err}
use gotfr_sec.Domain.Models.{Time, AuditEvent}
use gotfr_sec.Repositories.Interfaces.{Call}

-- What the program takes from the platform: Unicode's case table, the successive readings of the
-- UTC clock, the successive values of `uuid4().hex`, and SHA-256 in hexadecimal.
pub record Platform : Type 0 where
  pub wide : CaseTable
  pub clock : ℕ → Time
  pub uuid_hex : ℕ → Text
  pub sha256_hex : Text → Text

-- The process: `store` is the state of the repositories, `audit` the events of
-- `LoggingAuditEventRepository` in the order of their appending.
pub record World (S : Type 0) : Type 0 where
  pub store : S
  pub audit : List AuditEvent
  pub clock_reads : ℕ
  pub uuids_drawn : ℕ

abbrev pub Exec : Type 0 → Type 0 → Type 0
Exec S A = World S → Result A × World S

module _ {S A : Type 0} where
  abbrev pub pure : A → Exec S A
  pure a w = (ok a, w)

  abbrev pub raise : Error → Exec S A
  raise e w = (err e, w)

  -- A pure function that may raise.
  abbrev pub lift : Result A → Exec S A
  lift r w = (r, w)

  -- A method of a store.
  abbrev pub stored : Call S A → Exec S A
  stored call w = let (r, s) = call w.store in (r, record w { store = s })

module _ {S A B : Type 0} where
  abbrev pub continue : Result A → (A → Exec S B) → Exec S B
  continue (ok value) next w = next value w
  continue (err raised) next w = (err raised, w)

  infixl 5 ◌>>=◌ ◌>>◌
  abbrev pub ◌>>=◌ : Exec S A → (A → Exec S B) → Exec S B
  ◌>>=◌ first next w = let (result, after) = first w in continue result next after

  abbrev pub ◌>>◌ : Exec S A → Exec S B → Exec S B
  first >> second = first >>= λ ignored. second

module _ {S : Type 0} where
  abbrev pub raise_if : Bool → Error → Exec S (Unit {0})
  raise_if true e = raise e
  raise_if false e = pure tt

  pub raise_if_lem :
      (b : Bool) (e : Error) (w : World S) → raise_if b e w ≡ (if b then err e else ok tt, w)
  raise_if_lem true e w = refl
  raise_if_lem false e w = refl

  -- `AuditEventRepository.append`, whose log call raises nothing.
  abbrev pub append_event : AuditEvent → Exec S (Unit {0})
  append_event event w = (ok tt, record w { audit = w.audit ++ event ∷ [] })

module _ {S : Type 0} (p : Platform) where
  -- `utc_now()`.
  abbrev pub utc_now : Exec S Time
  utc_now w = (ok (p.clock w.clock_reads), record w { clock_reads = suc w.clock_reads })

  -- `now or utc_now()`: a `datetime` is always true.
  abbrev pub or_now : Option Time → Exec S Time
  or_now (some t) = pure t
  or_now none = utc_now

  -- The time that `or_now` returns, and the world that it leaves.
  abbrev pub time_of : Option Time → World S → Time
  time_of (some t) w = t
  time_of none w = p.clock w.clock_reads

  abbrev pub after_now : Option Time → World S → World S
  after_now (some t) w = w
  after_now none w = record w { clock_reads = suc w.clock_reads }

  -- `uuid4().hex`.
  abbrev pub uuid4_hex : Exec S Text
  uuid4_hex w = (ok (p.uuid_hex w.uuids_drawn), record w { uuids_drawn = suc w.uuids_drawn })

  -- An event is stamped when it is built, and then appended.
  abbrev pub record_event : (Time → AuditEvent) → Exec S (Unit {0})
  record_event event = do now ← utc_now; append_event (event now)

  abbrev pub audit_result :
      {A : Type 0} → (Time → AuditEvent) → (A → Time → AuditEvent) → Result A → Exec S A
  audit_result failure success (ok a) = record_event (success a) >> pure a
  audit_result failure success (err e) = record_event failure >> raise e

  -- `try: body except Exception: append(failure); raise`, and `append(success)` behind it.
  unfoldable pub audited :
      {A : Type 0} → (Time → AuditEvent) → (A → Time → AuditEvent) → Exec S A → Exec S A
  audited failure success body w = let (r, w') = body w in audit_result failure success r w'
