-- ===== src/Exec/Audited.antt =====
-- What `audited` adds to its body: one event, and nothing else. Actions that log nothing of their
-- own are `Quiet`.
use gotfr_sec.Prelude.{
  suc, ◌≡◌, refl, ◌∙◌, ap, Bool, true, false, Option, none, some, [], ◌∷◌, ◌++◌, if◌then◌else◌,
}
use gotfr_sec.Prelude.Text.{Text}
use gotfr_sec.Domain.Errors.{Error, Result, ok, err}
use gotfr_sec.Domain.Models.{Time, AuditEvent, EventType, Outcome, success, failure}
use gotfr_sec.Repositories.Interfaces.{Call}
use gotfr_sec.Exec.{
  Platform, World, Exec, pure, raise, lift, stored, continue, ◌>>=◌, raise_if, utc_now, or_now,
  uuid4_hex, audit_result, audited,
}

module _ {S A : Type 0} where
  pub record Quiet (m : Exec S A) : Type 0 where
    pub at : (w : World S) → (m w).1.audit ≡ w.audit

  pub Quiet-pure : (a : A) → Quiet (pure a)
  Quiet-pure a = record { at = λ w. refl }

  pub Quiet-raise : (e : Error) → Quiet (raise e)
  Quiet-raise e = record { at = λ w. refl }

  pub Quiet-lift : (r : Result A) → Quiet (lift r)
  Quiet-lift r = record { at = λ w. refl }

  pub Quiet-stored : (call : Call S A) → Quiet (stored call)
  Quiet-stored call = record { at = λ w. refl }

  pub Quiet-if : (b : Bool) (m n : Exec S A) → Quiet m → Quiet n → Quiet (if b then m else n)
  Quiet-if true m n hm hn = hm
  Quiet-if false m n hm hn = hn

module _ {S A B : Type 0} where
  Quiet-continue :
      (f : A → Exec S B) (r : Result A) (w : World S)
      → ((a : A) → Quiet (f a))
      → (continue r f w).1.audit ≡ w.audit
  Quiet-continue next (ok value) w h = (h value).at w
  Quiet-continue next (err raised) w h = refl

  pub Quiet-bind :
      (m : Exec S A) (f : A → Exec S B) → Quiet m → ((a : A) → Quiet (f a)) → Quiet (m >>= f)
  Quiet-bind m f hm hf = record { at = λ w. Quiet-continue f (m w).0 (m w).1 hf ∙ hm.at w }

module _ {S : Type 0} where
  pub Quiet-raise_if : (b : Bool) (e : Error) → Quiet {S = S} (raise_if b e)
  Quiet-raise_if true e = record { at = λ w. refl }
  Quiet-raise_if false e = record { at = λ w. refl }

  pub Quiet-utc_now : (p : Platform) → Quiet {S = S} (utc_now p)
  Quiet-utc_now p = record { at = λ w. refl }

  pub Quiet-or_now : (p : Platform) (t : Option Time) → Quiet {S = S} (or_now p t)
  Quiet-or_now p none = record { at = λ w. refl }
  Quiet-or_now p (some t) = record { at = λ w. refl }

  pub Quiet-uuid4_hex : (p : Platform) → Quiet {S = S} (uuid4_hex p)
  Quiet-uuid4_hex p = record { at = λ w. refl }

pub ruleset quiet_rules = (
  Quiet-pure, Quiet-raise, Quiet-lift, Quiet-stored, Quiet-if, Quiet-bind, Quiet-raise_if,
  Quiet-utc_now, Quiet-or_now, Quiet-uuid4_hex,
)

-- The event that a call leaves: `success` with the value returned, or `failure`.
abbrev pub event_of {ℓ} :
    {A : Type ℓ} → (Time → AuditEvent) → (A → Time → AuditEvent) → Result A → Time → AuditEvent
event_of failing succeeding (ok a) = succeeding a
event_of failing succeeding (err e) = failing

module _ {S A : Type 0} (p : Platform) (failing : Time → AuditEvent)
    (succeeding : A → Time → AuditEvent) where
  audit_result_lem :
      (r : Result A) (w : World S)
      → audit_result p failing succeeding r w ≡ (
        r,
        record w {
          clock_reads = suc w.clock_reads;
          audit = w.audit ++ event_of failing succeeding r (p.clock w.clock_reads) ∷ [];
        },
      )
  audit_result_lem (ok a) w = refl
  audit_result_lem (err e) w = refl

  -- `audited` returns what its body returns, in the state that it left, with one more event.
  pub audited_lem :
      (body : Exec S A) (w : World S)
      → let (r, w') = body w in
        audited p failing succeeding body w ≡ (
          r,
          record w' {
            clock_reads = suc w'.clock_reads;
            audit = w'.audit ++ event_of failing succeeding r (p.clock w'.clock_reads) ∷ [];
          },
        )
  unfolding audited
  audited_lem body w = audit_result_lem (body w).0 (body w).1

-- How a call ended, as its event tells it.
abbrev pub outcome_of {ℓ} : {A : Type ℓ} → Result A → Outcome
outcome_of (ok a) = success
outcome_of (err e) = failure

-- A call that added exactly one event to the log, stamped by the clock: the event says who acted,
-- for which request, what was done, and whether the call returned or raised.
pub record Logs {S A : Type 0} (w : World S) (call : Result A × World S) (event_type : EventType)
    (actor_sub : Text) (correlation_id : Option Text) : Type 0 where
  pub event : AuditEvent
  pub appended : call.1.audit ≡ w.audit ++ event ∷ []
  pub outcome : event.outcome ≡ outcome_of call.0
  pub done : event.event_type ≡ event_type
  pub actor : event.actor_sub ≡ some actor_sub
  pub request : event.correlation_id ≡ correlation_id

-- An event that tells how its call ended.
abbrev pub Tells : EventType → Text → Option Text → Outcome → (Time → AuditEvent) → Type 0
Tells event_type actor_sub correlation_id outcome event =
    (now : Time)
    → ((event now).outcome ≡ outcome)
      × ((event now).event_type ≡ event_type)
      × ((event now).actor_sub ≡ some actor_sub)
      × ((event now).correlation_id ≡ correlation_id)

module _ {S A : Type 0} (p : Platform) where
  Logs-result :
      {event_type : EventType} {actor_sub : Text} {correlation_id : Option Text}
      (failing : Time → AuditEvent) (succeeding : A → Time → AuditEvent)
      → Tells event_type actor_sub correlation_id failure failing
      → ((a : A) → Tells event_type actor_sub correlation_id success (succeeding a))
      → (w w' : World S) (r : Result A) → w'.audit ≡ w.audit
      → Logs w (audit_result p failing succeeding r w') event_type actor_sub correlation_id
  Logs-result failing succeeding hf hs w w' (ok a) same =
      let t = hs a (p.clock w'.clock_reads) in
      record {
        event = succeeding a (p.clock w'.clock_reads);
        appended = ap (λ l. l ++ succeeding a (p.clock w'.clock_reads) ∷ []) same;
        outcome = t.0;
        done = t.1;
        actor = t.2;
        request = t.3;
      }
  Logs-result failing succeeding hf hs w w' (err e) same =
      let t = hf (p.clock w'.clock_reads) in
      record {
        event = failing (p.clock w'.clock_reads);
        appended = ap (λ l. l ++ failing (p.clock w'.clock_reads) ∷ []) same;
        outcome = t.0;
        done = t.1;
        actor = t.2;
        request = t.3;
      }

  pub audited-Logs :
      {event_type : EventType} {actor_sub : Text} {correlation_id : Option Text}
      (failing : Time → AuditEvent) (succeeding : A → Time → AuditEvent)
      → Tells event_type actor_sub correlation_id failure failing
      → ((a : A) → Tells event_type actor_sub correlation_id success (succeeding a))
      → (body : Exec S A) → Quiet body
      → (w : World S)
      → Logs w (audited p failing succeeding body w) event_type actor_sub correlation_id
  unfolding audited
  audited-Logs failing succeeding hf hs body quiet w =
      Logs-result failing succeeding hf hs w (body w).1 (body w).0 (quiet.at w)

  -- What stands behind the audited part and neither logs nor raises changes nothing of this.
  pub Logs-map :
      {B : Type 0} (f : A → B) {event_type : EventType} {actor_sub : Text}
      {correlation_id : Option Text} (w w' : World S) (r : Result A)
      → Logs w (r, w') event_type actor_sub correlation_id
      → Logs w (continue r (λ a. pure (f a)) w') event_type actor_sub correlation_id
  Logs-map f w w' (ok a) h = record {
    event = h.event;
    appended = h.appended;
    outcome = h.outcome;
    done = h.done;
    actor = h.actor;
    request = h.request;
  }
  Logs-map f w w' (err e) h = record {
    event = h.event;
    appended = h.appended;
    outcome = h.outcome;
    done = h.done;
    actor = h.actor;
    request = h.request;
  }
