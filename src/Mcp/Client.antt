-- ===== src/Mcp/Client.antt =====
-- internal/mcp/stdio_client.go and protocol.go: calls that wait for their replies. A step is what runs under
-- the client's lock, or one operation on a channel. A step gives none where Go panics or where the reader
-- would block.
pub mod Safety
pub mod Sound
use matrix_runtime.Common.{
  ℕ, suc, ◌+◌, Bool, true, false, not, ◌&&◌, ◌||◌, List, [], ◌∷◌, Option, none, some, ◌==◌, is_some,
  any, if◌then◌else◌, Text,
}
use matrix_runtime.Common.Int.{ℤ}

pub record RpcError : Type 0 where
  pub code : ℤ
  pub message : Text

-- A message of the server; without an id it is a notification. No id below 0 is given to a call, and such a
-- message is passed over like one with an unknown id. The result is its JSON text.
pub record Response : Type 0 where
  pub id : Option ℕ
  pub result : Text
  pub error : Option RpcError

-- How a call ends.
pub data CallResult : Type 0 where
  write_failed timed_out server_closed : CallResult
  answered : Response → CallResult

-- What `call` returns for a reply.
pub data Reply : Type 0 where
  result : Text → Reply
  rpc_error : RpcError → Reply

unfoldable pub reply : Response → Reply
reply msg = elim msg.error [ none ↦ result msg.result | some e ↦ rpc_error e ]

pub data CallPhase : Type 0 where
  writing waiting : CallPhase
  ended : CallResult → CallPhase

-- What the reader has still to do with a channel that `dispatch` has taken out of the map.
pub data Held : Type 0 where
  free : Held
  sending : Response → Held
  closing : Held

abbrev pub is_held : Held → Bool
is_held free = false
is_held h = true

-- A call with its channel of capacity 1; `pending` says whether the client's map holds the channel under the
-- call's id, and `held` what the reader does with it.
pub record Call : Type 0 where
  pub id : ℕ
  pub phase : CallPhase
  pub pending : Bool
  pub inbox : Option Response
  pub closed : Bool
  pub held : Held

pub record Client : Type 0 where
  pub next_id : ℕ
  pub read_failed : Bool
  pub calls : List Call

unfoldable pub new_client : Client
new_client = record { next_id = 0; read_failed = false; calls = [] }

abbrev pub consed_call : Call → Option (List Call) → Option (List Call)
consed_call c none = none
consed_call c (some cs) = some (c ∷ cs)

abbrev pub headed_call : List Call → Option Call → Option (List Call)
headed_call cs none = none
headed_call cs (some c) = some (c ∷ cs)

-- A step of the call with an id.
unfoldable pub on_call : ℕ → (Call → Option Call) → List Call → Option (List Call)
on_call id f [] = some []
on_call id f (c ∷ cs) =
    let rest = on_call id f cs in if c.id == id then headed_call cs (f c) else consed_call c rest

abbrev pub with_calls : Client → Option (List Call) → Option Client
with_calls c none = none
with_calls c (some cs) = some (record c { calls = cs })

-- The first part of `call`: an id and a place in the map, or an error once the reader has ended.
unfoldable pub begin_call : Client → Option Client
begin_call c =
    if c.read_failed
    then some c
    else some (record c {
      next_id = suc c.next_id;
      calls =
          (record {
            id = suc c.next_id;
            phase = writing;
            pending = true;
            inbox = none;
            closed = false;
            held = free;
          })
          ∷ c.calls;
    })

-- The request is written, or the call leaves the map and ends.
abbrev pub write_call : Bool → Call → Call
write_call true c = record c { phase = elim c.phase [ writing ↦ waiting | p ↦ p ] }
write_call false c = elim c.phase [
  | writing ↦ record c { phase = ended write_failed; pending = false }
  | p ↦ c
]

-- The locked part of dispatch: the channel leaves the map; an id that is not in the map is passed over.
abbrev pub dispatch_call : Response → Call → Option Call
dispatch_call msg c =
    if c.pending then some (record c { pending = false; held = sending msg }) else some c

-- `ch <- msg`
abbrev pub send_held : Call → Held → Option Call
send_held c (sending msg) =
    if c.closed || is_some c.inbox
    then none
    else some (record c { inbox = some msg; held = closing })
send_held c h = some c

abbrev pub send_call : Call → Option Call
send_call c = send_held c c.held

-- `close(ch)`
abbrev pub shut_held : Call → Held → Option Call
shut_held c closing = if c.closed then none else some (record c { closed = true; held = free })
shut_held c h = some c

abbrev pub shut_call : Call → Option Call
shut_call c = shut_held c c.held

-- The reader is one goroutine: it reads no message while it holds a channel.
abbrev pub is_busy : List Call → Bool
is_busy cs = any (λ c. is_held c.held) cs

abbrev pub dispatch_to : Response → Option ℕ → Client → Option Client
dispatch_to msg none c = some c
dispatch_to msg (some id) c = with_calls c (on_call id (dispatch_call msg) c.calls)

unfoldable pub dispatch : Response → Client → Option Client
unfolding on_call
dispatch msg c = if c.read_failed || is_busy c.calls then some c else dispatch_to msg msg.id c

-- The end of the reader: it closes and removes every channel of the map.
abbrev pub close_call : Call → Option Call
close_call c =
    if not c.pending
    then some c
    else if c.closed
    then none
    else some (record c { pending = false; closed = true })

abbrev pub joined_call : Option Call → Option (List Call) → Option (List Call)
joined_call none cs = none
joined_call (some c) cs = consed_call c cs

unfoldable pub close_calls : List Call → Option (List Call)
close_calls [] = some []
close_calls (c ∷ cs) = joined_call (close_call c) (close_calls cs)

unfoldable pub end_reader : Client → Option Client
unfolding close_calls
end_reader c =
    if c.read_failed || is_busy c.calls
    then some c
    else with_calls (record c { read_failed = true }) (close_calls c.calls)

-- The branches of the `select` of `call`.
abbrev pub time_out_call : Call → Call
time_out_call c = elim c.phase [
  | waiting ↦ record c { phase = ended timed_out; pending = false }
  | p ↦ c
]

abbrev pub take_reply : Call → Option Response → Call
take_reply c (some msg) = record c { phase = ended (answered msg); inbox = none }
take_reply c none = if c.closed then record c { phase = ended server_closed } else c

abbrev pub receive_call : Call → Call
receive_call c = elim c.phase [ waiting ↦ take_reply c c.inbox | p ↦ c ]

pub data ClientStep : Type 0 where
  begins : ClientStep
  writes : ℕ → Bool → ClientStep
  dispatches : Response → ClientStep
  sends : ℕ → ClientStep
  closes : ℕ → ClientStep
  reader_ends : ClientStep
  times_out : ℕ → ClientStep
  receives : ℕ → ClientStep

unfoldable pub step_client : ClientStep → Client → Option Client
unfolding begin_call on_call dispatch end_reader
step_client begins c = begin_call c
step_client (writes id done) c = with_calls c (on_call id (λ k. some (write_call done k)) c.calls)
step_client (dispatches msg) c = dispatch msg c
step_client (sends id) c = with_calls c (on_call id send_call c.calls)
step_client (closes id) c = with_calls c (on_call id shut_call c.calls)
step_client reader_ends c = end_reader c
step_client (times_out id) c = with_calls c (on_call id (λ k. some (time_out_call k)) c.calls)
step_client (receives id) c = with_calls c (on_call id (λ k. some (receive_call k)) c.calls)

abbrev pub then_steps : Option Client → (Client → Option Client) → Option Client
then_steps none f = none
then_steps (some c) f = f c

unfoldable pub run_client : List ClientStep → Client → Option Client
unfolding step_client
run_client [] c = some c
run_client (s ∷ ss) c = then_steps (step_client s c) (run_client ss)

-- The call with an id.
unfoldable pub find_call : ℕ → List Call → Option Call
find_call id [] = none
find_call id (c ∷ cs) = let rest = find_call id cs in if c.id == id then some c else rest
