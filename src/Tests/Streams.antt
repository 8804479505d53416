-- ===== src/Tests/Streams.antt =====
-- The log ring and the event bus of internal/logs.
use matrix_runtime.Common.{◌≡◌, refl, ℕ, List, [], ◌∷◌, ◌++◌, some, map, length, take, codes}
use matrix_runtime.Logs.Ring.{new_ring, contents}
use matrix_runtime.Logs.Ring.Suffix.{write_all, suffix, concat, contents-write_all}
use matrix_runtime.Logs.Bus.{Bus, Sub, Event, EventStatus, new_bus, subscribe, capacity}
use matrix_runtime.Logs.Bus.Safety.{
  Call, publishing, subscribing, cancelling, closing, receiving, perform_all, IsSafe,
  perform_all_no_panic,
}
use matrix_runtime.Logs.Bus.Delivery.{subscribe-delivers}

abbrev lines : List (List ℕ)
lines = codes "ready" ∷ codes "listening" ∷ []

contents-write_all_example :
    contents (write_all lines (new_ring 6)) ≡ suffix (new_ring 6).limit (concat lines)
contents-write_all_example = contents-write_all 6 lines

abbrev queued_event : Event
queued_event = record {
  step = codes "queue";
  status = EventStatus.queued;
  message = codes "Job queued";
  fields = [];
}

abbrev calls : List Call
calls =
    subscribing
    ∷ publishing queued_event
    ∷ closing
    ∷ publishing queued_event
    ∷ cancelling 0
    ∷ closing
    ∷ receiving 0
    ∷ []

perform_all_no_panic_example : (b : Bus) × (perform_all calls new_bus ≡ some b) × IsSafe b
perform_all_no_panic_example = perform_all_no_panic calls

subscribe-delivers_example :
    let (hist, id, b1) = subscribe new_bus in
    (b2 : Bus) × (perform_all (map publishing (queued_event ∷ [])) b1 ≡ some b2)
    × (hist ≡ new_bus.history)
    × (b2.history ≡ hist ++ queued_event ∷ [])
    × ((others : List Sub) × (own : Sub) × (b2.subs ≡ others ++ own ∷ [])
        × (length others ≡ id)
        × (own.buf ≡ take capacity (queued_event ∷ [])))
unfolding new_bus
subscribe-delivers_example =
    subscribe-delivers new_bus (queued_event ∷ []) (record { tracked = tt }) refl
