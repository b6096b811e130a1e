-- ===== src/Services/Contract.antt =====
-- How a service call ends: with what result, and with what view of the stores.
use gotfr_sec.Prelude.{◌≡◌, refl, ap}
use gotfr_sec.Domain.Errors.{Result, ok, err}
use gotfr_sec.Domain.Models.{Time, AuditEvent}
use gotfr_sec.Repositories.View.{View}
use gotfr_sec.Repositories.Lawful.{Reading}
use gotfr_sec.Exec.{Platform, World, Exec, pure, continue, audited}
use gotfr_sec.Exec.Audited.{audited_lem}

abbrev pub map_result : {A B : Type 0} → (A → B) → Result A → Result B
map_result f (ok a) = ok (f a)
map_result f (err e) = err e

module _ {S : Type 0} (reading : Reading S) where
  -- The stores are left in a valid state.
  pub record Ends {A : Type 0} (call : Result A × World S) (result : Result A) (v : View)
      : Type 0 where
    pub returned : call.0 ≡ result
    pub valid : reading.IsValid call.1.store
    pub seen : reading.view call.1.store ≡ v

  module _ {A : Type 0} where
    pub Ends-audited :
        (p : Platform) (failing : Time → AuditEvent) (succeeding : A → Time → AuditEvent)
        (body : Exec S A) (w : World S) {result : Result A} {v : View}
        → Ends (body w) result v
        → Ends (audited p failing succeeding body w) result v
    Ends-audited p failing succeeding body w h =
        rw (audited_lem p failing succeeding body w)
          (record { returned = h.returned; valid = h.valid; seen = h.seen })

    pub Ends-same :
        (call : Result A × World S) (r : Result A) (w : World S)
        → call ≡ (r, w)
        → reading.IsValid w.store
        → Ends call r (reading.view w.store)
    Ends-same call r w e valid = rw e (record { returned = refl; valid = valid; seen = refl })

    pub Ends-map :
        {B : Type 0} (f : A → B) (call : Result A × World S) {r : Result A} {v : View}
        → Ends call r v
        → Ends (continue call.0 (λ a. pure (f a)) call.1) (map_result f r) v
    Ends-map f (ok a, w) h = record {
      returned = ap (map_result f) h.returned;
      valid = h.valid;
      seen = h.seen;
    }
    Ends-map f (err e, w) h = record {
      returned = ap (map_result f) h.returned;
      valid = h.valid;
      seen = h.seen;
    }
