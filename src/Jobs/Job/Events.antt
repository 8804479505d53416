-- ===== src/Jobs/Job/Events.antt =====
-- What the event bus of a job shows after the job's methods.
use matrix_runtime.Common.{
  ◌≡◌, ◌∙◌, sym, ap, subst, true, false, List, [], ◌∷◌, ◌++◌, Text, if◌then◌else◌,
}
use matrix_runtime.Logs.Bus.{Bus, Event, EventStatus, Datum}
use matrix_runtime.Logs.Bus.Safety.{IsSafe, publish-IsSafe, close_bus-IsSafe}
use matrix_runtime.Jobs.Job.{Job, emit, close_events, kept_bus}

-- `emit` keeps the bus safe and open or closed as it was; on an open bus the event ends the history.
pub record Emitted (step : Text) (status : EventStatus) (message : Text)
    (fields : List (Text × Datum)) (b b' : Bus) : Type 0 where
  pub safe : IsSafe b'
  pub closed : b'.closed ≡ b.closed
  pub history :
      b.closed ≡ false
      → b'.history
        ≡ b.history
          ++ (record { step = step; status = status; message = message; fields = fields }) ∷ []

pub emit-Emitted :
    (step : Text) (status : EventStatus) (message : Text) (fields : List (Text × Datum)) (j : Job)
    → IsSafe j.bus
    → Emitted step status message fields j.bus (emit step status message fields j).bus
unfolding emit
emit-Emitted step status message fields j s =
    let e : Event = record { step = step; status = status; message = message; fields = fields } in
    let (b', same, safe, closed, history) = publish-IsSafe e j.bus s in
    let kept = ap (kept_bus j.bus) same in
    record {
      safe = subst IsSafe (sym kept) safe;
      closed = ap (λ (b : Bus). b.closed) kept ∙ closed;
      history = λ o.
          ap (λ (b : Bus). b.history) kept
          ∙ history
          ∙ ap (λ c. if c then j.bus.history else j.bus.history ++ e ∷ []) o;
    }

pub close_events_lem :
    (j : Job)
    → IsSafe j.bus
    → IsSafe (close_events j).bus
      × ((close_events j).bus.closed ≡ true)
      × ((close_events j).bus.history ≡ j.bus.history)
unfolding close_events
close_events_lem j s =
    let (b', same, safe, closed, history) = close_bus-IsSafe j.bus s in
    let kept = ap (kept_bus j.bus) same in
    (
      subst IsSafe (sym kept) safe,
      ap (λ (b : Bus). b.closed) kept ∙ closed,
      ap (λ (b : Bus). b.history) kept ∙ history,
    )
