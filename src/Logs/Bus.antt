-- ===== src/Logs/Bus.antt =====
-- internal/logs/stream.go: the event bus of a job. A mutex makes each method one step. A method
-- returns none where Go panics: on a send to, or a second close of, a closed channel.
pub mod Safety
pub mod Delivery
use matrix_runtime.Common.{
  ℕ, zero, suc, Bool, true, false, not, List, [], ◌∷◌, ◌++◌, Option, none, some, length, ltb,
  if◌then◌else◌, Text,
}

-- The status values of internal/jobs/events.go.
pub data EventStatus : Type 0 where
  queued start ok error running expired cancelled complete : EventStatus

-- What an event's data map may hold.
pub data Datum : Type 0 where
  text : Text → Datum
  number : ℕ → Datum

pub record Event : Type 0 where
  pub step : Text
  pub status : EventStatus
  pub message : Text
  pub fields : List (Text × Datum)

-- A channel of capacity 64 with the events that its reader has not taken; `member` says whether
-- the bus has it among its `subs`.
pub record Sub : Type 0 where
  pub buf : List Event
  pub closed : Bool
  pub member : Bool

-- `subs` holds every channel ever handed out, in order; a subscriber is known by its index.
pub record Bus : Type 0 where
  pub history : List Event
  pub subs : List Sub
  pub closed : Bool

unfoldable pub new_bus : Bus
new_bus = record { history = []; subs = []; closed = false }

abbrev pub capacity : ℕ
capacity = 64

-- `select { case ch <- e: default: }`
offer : Event → Sub → Option Sub
offer e c =
    if c.closed
    then none
    else if ltb (length c.buf) capacity
    then some (record c { buf = c.buf ++ e ∷ [] })
    else some c

-- `close(ch); delete(b.subs, ch)`
detach : Sub → Option Sub
detach c = if c.closed then none else some (record c { closed = true; member = false })

abbrev consed : Option Sub → Option (List Sub) → Option (List Sub)
consed (some c) (some cs) = some (c ∷ cs)
consed _ _ = none

-- `for ch := range b.subs`
each_member : (Sub → Option Sub) → List Sub → Option (List Sub)
each_member f [] = some []
each_member f (c ∷ cs) =
    let rest = each_member f cs in consed (if c.member then f c else some c) rest

abbrev with_subs : Bus → Option (List Sub) → Option Bus
with_subs b none = none
with_subs b (some subs) = some (record b { subs = subs })

unfoldable pub publish : Event → Bus → Option Bus
unfolding offer each_member
publish e b =
    if b.closed
    then some b
    else with_subs (record b { history = b.history ++ e ∷ [] }) (each_member (offer e) b.subs)

-- The history and the index of the new channel come back beside the bus. On a closed bus the
-- channel is closed and its cancel function does nothing, as `cancel` does on a non-member.
unfoldable pub subscribe : Bus → List Event × ℕ × Bus
subscribe b =
    let c : Sub = record { buf = []; closed = b.closed; member = not b.closed } in
    (b.history, length b.subs, record b { subs = b.subs ++ c ∷ [] })

cancel_at : ℕ → List Sub → Option (List Sub)
cancel_at i [] = some []
cancel_at zero (c ∷ cs) = consed (if c.member then detach c else some c) (some cs)
cancel_at (suc i) (c ∷ cs) = consed (some c) (cancel_at i cs)

-- The cancel function that `Subscribe` returned for the channel of an index.
unfoldable pub cancel : ℕ → Bus → Option Bus
unfolding detach cancel_at
cancel i b = with_subs b (cancel_at i b.subs)

unfoldable pub close_bus : Bus → Option Bus
unfolding detach each_member
close_bus b =
    if b.closed then some b else with_subs (record b { closed = true }) (each_member detach b.subs)

abbrev taken : Sub → List Event → Sub
taken c [] = c
taken c (e ∷ es) = record c { buf = es }

receive_at : ℕ → List Sub → List Sub
receive_at i [] = []
receive_at zero (c ∷ cs) = taken c c.buf ∷ cs
receive_at (suc i) (c ∷ cs) = c ∷ receive_at i cs

-- A reader takes the oldest event from its channel, if there is one.
unfoldable pub receive : ℕ → Bus → Bus
unfolding receive_at
receive i b = record b { subs = receive_at i b.subs }
