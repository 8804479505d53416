-- ===== src/Mcp/Client/Sound.antt =====
-- internal/mcp/stdio_client.go: what holds of a call and its channel, and is kept by every step of the call.
use matrix_runtime.Common.{
  ℕ, ◌≡◌, refl, Bool, true, false, not, ◌&&◌, ◌||◌, Option, none, some, is_some, arith,
}
use matrix_runtime.Mcp.Client.{
  Response, answered, write_failed, timed_out, server_closed, CallPhase, writing, waiting, ended,
  CallResult, Held, free, sending, closing, is_held, Call, write_call, dispatch_call, send_call,
  shut_call, close_call, time_out_call, receive_call,
}

-- A message is a reply to the call.
abbrev IsReplyTo : ℕ → Option Response → Type 0
IsReplyTo id none = Unit
IsReplyTo id (some msg) = msg.id ≡ some id

-- A call that has not ended has its channel in the map, held by the reader, or closed.
abbrev IsHeard : CallPhase → Bool → Bool → Held → Type 0
IsHeard writing pending closed held = (pending || closed || is_held held) ≡ true
IsHeard waiting pending closed held = (pending || closed || is_held held) ≡ true
IsHeard (ended r) pending closed held = Unit

-- A channel that the reader holds is open, and before the reply is sent it is empty; the reader still runs.
abbrev IsCarried : Bool → ℕ → Option Response → Bool → Held → Type 0
IsCarried failed id inbox closed free = Unit
IsCarried failed id inbox closed (sending msg) =
    (msg.id ≡ some id) × (inbox ≡ none) × (closed ≡ false) × (failed ≡ false)
IsCarried failed id inbox closed closing = (closed ≡ false) × (failed ≡ false)

abbrev IsAnswered : ℕ → CallPhase → Type 0
IsAnswered id (ended (answered msg)) = msg.id ≡ some id
IsAnswered id (ended write_failed) = Unit
IsAnswered id (ended timed_out) = Unit
IsAnswered id (ended server_closed) = Unit
IsAnswered id writing = Unit
IsAnswered id waiting = Unit

-- A channel in the map is open, empty and not held, and the reader still runs.
pub record IsSound (failed : Bool) (c : Call) : Type 0 where
  pub own : IsReplyTo c.id c.inbox
  pub answer : IsAnswered c.id c.phase
  pub heard : IsHeard c.phase c.pending c.closed c.held
  pub fresh :
      (not c.pending || not c.closed && not (is_some c.inbox) && not (is_held c.held) && not failed)
      ≡ true
  pub carried : IsCarried failed c.id c.inbox c.closed c.held

-- The fields of a call, one by one.
abbrev pub call_of : ℕ → CallPhase → Bool → Option Response → Bool → Held → Call
call_of id p pending inbox closed held = record {
  id = id;
  phase = p;
  pending = pending;
  inbox = inbox;
  closed = closed;
  held = held;
}

module _ (failed : Bool) (id : ℕ) (pending : Bool) (inbox : Option Response) (closed : Bool)
    (held : Held) where
  -- A call leaves the map as it ends.
  abbrev leaves :
      (p : CallPhase) (r : CallResult)
      → IsSound failed (call_of id p pending inbox closed held)
      → IsAnswered id (ended r)
      → IsSound failed (call_of id (ended r) false inbox closed held)
  leaves p r h a = record { own = h.own; answer = a; heard = tt; fresh = refl; carried = h.carried }

  pub write_call-IsSound :
      (b : Bool) (p : CallPhase)
      → IsSound failed (call_of id p pending inbox closed held)
      → ((write_call b (call_of id p pending inbox closed held)).id ≡ id)
        × IsSound failed (write_call b (call_of id p pending inbox closed held))
  write_call-IsSound true writing h = (
    refl,
    record { own = h.own; answer = tt; heard = h.heard; fresh = h.fresh; carried = h.carried },
  )
  write_call-IsSound true waiting h = (refl, h)
  write_call-IsSound true (ended r) h = (refl, h)
  write_call-IsSound false writing h = (refl, leaves writing write_failed h tt)
  write_call-IsSound false waiting h = (refl, h)
  write_call-IsSound false (ended r) h = (refl, h)

  pub time_out_call-IsSound :
      (p : CallPhase)
      → IsSound failed (call_of id p pending inbox closed held)
      → ((time_out_call (call_of id p pending inbox closed held)).id ≡ id)
        × IsSound failed (time_out_call (call_of id p pending inbox closed held))
  time_out_call-IsSound writing h = (refl, h)
  time_out_call-IsSound waiting h = (refl, leaves waiting timed_out h tt)
  time_out_call-IsSound (ended r) h = (refl, h)

  -- The locked part of dispatch takes a channel out of the map.
  pub dispatch_call-IsSound :
      (msg : Response) (p : CallPhase)
      → msg.id ≡ some id
      → IsSound failed (call_of id p pending inbox closed held)
      → (c : Call) × (dispatch_call msg (call_of id p pending inbox closed held) ≡ some c)
        × (c.id ≡ id)
        × IsSound failed c
  dispatch_call-IsSound msg p e h = go pending h
    where
      held_heard : (p : CallPhase) → IsHeard p false closed (sending msg)
      held_heard writing = ground arith
      held_heard waiting = ground arith
      held_heard (ended r) = tt

      go :
          (pending : Bool)
          → IsSound failed (call_of id p pending inbox closed held)
          → (c : Call) × (dispatch_call msg (call_of id p pending inbox closed held) ≡ some c)
            × (c.id ≡ id)
            × IsSound failed c
      go false h = (call_of id p false inbox closed held, refl, refl, h)
      go true h = (
        call_of id p false inbox closed (sending msg),
        refl,
        refl,
        record {
          own = h.own;
          answer = h.answer;
          heard = held_heard p;
          fresh = refl;
          carried = (e, ground (arith, h.fresh), ground (arith, h.fresh), ground (arith, h.fresh));
        },
      )

-- Taking a reply from the channel leaves what the reader holds.
taken-IsCarried :
    (failed : Bool) (id : ℕ) (msg : Response) (closed : Bool) (held : Held)
    → IsCarried failed id (some msg) closed held
    → IsCarried failed id none closed held
taken-IsCarried failed id msg closed free h = tt
taken-IsCarried failed id msg closed (sending m) h = absurd (cc h.1)
taken-IsCarried failed id msg closed closing h = h

pub receive_call-IsSound :
    (failed : Bool) (id : ℕ) (p : CallPhase) (pending : Bool) (inbox : Option Response)
    (closed : Bool) (held : Held)
    → IsSound failed (call_of id p pending inbox closed held)
    → ((receive_call (call_of id p pending inbox closed held)).id ≡ id)
      × IsSound failed (receive_call (call_of id p pending inbox closed held))
receive_call-IsSound failed id writing pending inbox closed held h = (refl, h)
receive_call-IsSound failed id (ended r) pending inbox closed held h = (refl, h)
receive_call-IsSound failed id waiting pending none false held h = (refl, h)
receive_call-IsSound failed id waiting pending none true held h =
    (refl, record { own = tt; answer = tt; heard = tt; fresh = h.fresh; carried = h.carried })
receive_call-IsSound failed id waiting pending (some msg) closed held h = (
  refl,
  record {
    own = tt;
    answer = h.own;
    heard = tt;
    fresh = ground (arith, h.fresh);
    carried = taken-IsCarried failed id msg closed held h.carried;
  },
)

IsHeard-closed : (p : CallPhase) (pending : Bool) (held : Held) → IsHeard p pending true held
IsHeard-closed writing pending held = ground arith
IsHeard-closed waiting pending held = ground arith
IsHeard-closed (ended r) pending held = tt

IsHeard-closing : (p : CallPhase) (pending closed : Bool) → IsHeard p pending closed closing
IsHeard-closing writing pending closed = ground arith
IsHeard-closing waiting pending closed = ground arith
IsHeard-closing (ended r) pending closed = tt

-- The reader sends into an open and empty channel, and closes an open one.
pub send_call-IsSound :
    (failed : Bool) (id : ℕ) (p : CallPhase) (pending : Bool) (inbox : Option Response)
    (closed : Bool) (held : Held)
    → IsSound failed (call_of id p pending inbox closed held)
    → (c : Call) × (send_call (call_of id p pending inbox closed held) ≡ some c)
      × (c.id ≡ id)
      × IsSound failed c
send_call-IsSound failed id p pending inbox closed free h = (_, refl, refl, h)
send_call-IsSound failed id p pending inbox closed closing h = (_, refl, refl, h)
send_call-IsSound failed id p pending inbox closed (sending msg) h =
    let (own, empty, opened, running) = h.carried in
    (
      call_of id p pending (some msg) closed closing,
      ground (arith, empty, opened),
      refl,
      record {
        own = own;
        answer = h.answer;
        heard = IsHeard-closing p pending closed;
        fresh = ground (arith, h.fresh);
        carried = (opened, running);
      },
    )

pub shut_call-IsSound :
    (failed : Bool) (id : ℕ) (p : CallPhase) (pending : Bool) (inbox : Option Response)
    (closed : Bool) (held : Held)
    → IsSound failed (call_of id p pending inbox closed held)
    → (c : Call) × (shut_call (call_of id p pending inbox closed held) ≡ some c)
      × (c.id ≡ id)
      × IsSound failed c
shut_call-IsSound failed id p pending inbox closed free h = (_, refl, refl, h)
shut_call-IsSound failed id p pending inbox closed (sending msg) h = (_, refl, refl, h)
shut_call-IsSound failed id p pending inbox closed closing h = (
  call_of id p pending inbox true free,
  ground (arith, h.carried.0),
  refl,
  record {
    own = h.own;
    answer = h.answer;
    heard = IsHeard-closed p pending free;
    fresh = ground (arith, h.fresh);
    carried = tt;
  },
)

-- The end of the reader, which holds no channel then.
pub close_call-IsSound :
    (id : ℕ) (p : CallPhase) (pending : Bool) (inbox : Option Response) (closed : Bool)
    (held : Held)
    → is_held held ≡ false
    → IsSound false (call_of id p pending inbox closed held)
    → (c : Call) × (close_call (call_of id p pending inbox closed held) ≡ some c)
      × (c.id ≡ id)
      × IsSound true c
close_call-IsSound id p pending inbox closed (sending msg) f h = absurd (cc f)
close_call-IsSound id p pending inbox closed closing f h = absurd (cc f)
close_call-IsSound id p false inbox closed free f h = (
  call_of id p false inbox closed free,
  refl,
  refl,
  record { own = h.own; answer = h.answer; heard = h.heard; fresh = refl; carried = tt },
)
close_call-IsSound id p true inbox closed free f h = (
  call_of id p false inbox true free,
  ground (arith, h.fresh),
  refl,
  record {
    own = h.own;
    answer = h.answer;
    heard = IsHeard-closed p false free;
    fresh = refl;
    carried = tt;
  },
)
