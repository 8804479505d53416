-- ===== src/Mcp/Client/Safety.antt =====
-- internal/mcp/stdio_client.go: interleavings of the callers with the reader.
pub mod Liveness
use matrix_runtime.Common.{
  any, ℕ, zero, suc, ◌+◌, ◌≤◌, ◌≡◌, refl, sym, ap, ◌∙◌, subst, Bool, true, false, not, ◌&&◌, ◌||◌,
  List, [], ◌∷◌, Option, none, some, All, ◌==◌, is_some, if◌then◌else◌, if-intro, Bool-cases,
  Option-cases, inl, inr, arith, Text, some_inj,
}
use matrix_runtime.Mcp.Client
use matrix_runtime.Mcp.Client.{
  Response, CallResult, answered, write_failed, timed_out, server_closed, CallPhase, writing,
  waiting, ended, Call, Client, new_client, consed_call, joined_call, headed_call, on_call,
  with_calls, begin_call, write_call, dispatch_call, dispatch_to, dispatch, close_call, close_calls,
  end_reader, time_out_call, take_reply, receive_call, ClientStep, begins, writes, dispatches,
  sends, closes, reader_ends, free, is_held, is_busy, send_call, shut_call, times_out, receives,
  step_client, then_steps, run_client, find_call,
}
use matrix_runtime.Mcp.Client.Sound.{
  IsSound, call_of, write_call-IsSound, time_out_call-IsSound, receive_call-IsSound,
  dispatch_call-IsSound, send_call-IsSound, shut_call-IsSound, close_call-IsSound,
}

unfoldable pub ids : List Call → List ℕ
ids [] = []
ids (c ∷ cs) = c.id ∷ ids cs

-- n, …, 1
unfoldable pub down_from : ℕ → List ℕ
down_from zero = []
down_from (suc n) = suc n ∷ down_from n

-- The calls, the newest first, have the ids from the last one down to 1, and each is sound.
pub record IsSafe (c : Client) : Type 0 where
  pub numbered : ids c.calls ≡ down_from c.next_id
  pub sound : All (IsSound c.read_failed) c.calls

-- A step of a sound call gives a sound call.
abbrev Keeps : Bool → ℕ → (Call → Option Call) → Type 0
Keeps failed id f =
    (c : Call)
    → c.id ≡ id
    → IsSound failed c
    → (c' : Call) × (f c ≡ some c') × (c'.id ≡ c.id) × IsSound failed c'

on_call-IsSound :
    (failed : Bool) (id : ℕ) (f : Call → Option Call) (cs : List Call)
    → Keeps failed id f
    → All (IsSound failed) cs
    → (cs' : List Call) × (on_call id f cs ≡ some cs')
      × (ids cs' ≡ ids cs)
      × All (IsSound failed) cs'
unfolding on_call ids
on_call-IsSound failed id f [] k h = ([], refl, refl, tt)
on_call-IsSound failed id f (c ∷ cs) k h = elim (Bool-cases (c.id == id)) [
  | inl e ↦
      let (c', g, i, s) = k c (ground arith) h.0 in
      (c' ∷ cs, ground (arith, e, g), ap (λ n. n ∷ ids cs) i, (s, h.1))
  | inr e ↦
      let (cs', g, i, s) = on_call-IsSound failed id f cs k h.1 in
      (c ∷ cs', ground (arith, e, g), ap (λ ns. c.id ∷ ns) i, (h.0, s))
]

-- A reader that is not busy holds no channel.
is_busy_inv :
    (c : Call) (cs : List Call)
    → is_busy (c ∷ cs) ≡ false
    → (is_held c.held ≡ false) × (is_busy cs ≡ false)
is_busy_inv c cs h = (ground (arith, h), ground (arith, h))

close_calls-IsSound :
    (cs : List Call)
    → is_busy cs ≡ false
    → All (IsSound false) cs
    → (cs' : List Call) × (close_calls cs ≡ some cs') × (ids cs' ≡ ids cs) × All (IsSound true) cs'
unfolding close_calls ids
close_calls-IsSound [] b h = ([], refl, refl, tt)
close_calls-IsSound (c ∷ cs) b h =
    let (idle, rest) = is_busy_inv c cs b in
    let (c', g, i, s) =
      close_call-IsSound c.id c.phase c.pending c.inbox c.closed c.held idle h.0 in
    let (cs', gs, is, ss) = close_calls-IsSound cs rest h.1 in
    (
      c' ∷ cs',
      ap (λ o. joined_call o (close_calls cs)) g ∙ ap (consed_call c') gs,
      ap (λ n. n ∷ ids cs') i ∙ ap (λ ns. c.id ∷ ns) is,
      (s, ss),
    )

-- A step that changes one call.
on_call-IsSafe :
    (id : ℕ) (f : Call → Option Call) (c : Client)
    → Keeps c.read_failed id f
    → IsSafe c
    → (c' : Client) × (with_calls c (on_call id f c.calls) ≡ some c') × IsSafe c'
on_call-IsSafe id f c k h =
    let (cs', g, i, s) = on_call-IsSound c.read_failed id f c.calls k h.sound in
    (record c { calls = cs' }, ap (with_calls c) g, record { numbered = i ∙ h.numbered; sound = s })

abbrev client_of : ℕ → Bool → List Call → Client
client_of n failed cs = record { next_id = n; read_failed = failed; calls = cs }

begin_call-IsSafe :
    (n : ℕ) (failed : Bool) (cs : List Call)
    → IsSafe (client_of n failed cs)
    → (c : Client) × (begin_call (client_of n failed cs) ≡ some c) × IsSafe c
unfolding begin_call ids down_from
begin_call-IsSafe n true cs h = (client_of n true cs, refl, h)
begin_call-IsSafe n false cs h = (
  client_of (suc n) false (call_of (suc n) writing true none false free ∷ cs),
  refl,
  record {
    numbered = ap (λ ns. suc n ∷ ns) h.numbered;
    sound = (record { own = tt; answer = tt; heard = refl; fresh = refl; carried = tt }, h.sound);
  },
)

dispatch_to-IsSafe :
    (msg : Response) (o : Option ℕ) (c : Client)
    → msg.id ≡ o
    → IsSafe c
    → (c' : Client) × (dispatch_to msg o c ≡ some c') × IsSafe c'
dispatch_to-IsSafe msg none c e h = (c, refl, h)
dispatch_to-IsSafe msg (some id) c e h =
    on_call-IsSafe id (dispatch_call msg) c
      (λ k e' s.
        dispatch_call-IsSound c.read_failed k.id k.pending k.inbox k.closed k.held msg k.phase
          (e ∙ ap some (sym e')) s)
      h

-- A step that only a reader that runs and holds no channel takes.
idle_cases :
    (f : Client → Option Client) (c : Client)
    → (c.read_failed ≡ false
        → is_busy c.calls ≡ false
        → (c' : Client) × (f c ≡ some c') × IsSafe c')
    → IsSafe c
    → (c' : Client) × ((if c.read_failed || is_busy c.calls then some c else f c) ≡ some c')
      × IsSafe c'
idle_cases f c idle h =
    if-intro (λ o. (c' : Client) × (o ≡ some c') × IsSafe c') (c.read_failed || is_busy c.calls)
      (λ e. (c, refl, h)) (λ e. idle (ground (arith, e)) (ground (arith, e)))

dispatch-IsSafe :
    (msg : Response) (c : Client)
    → IsSafe c
    → (c' : Client) × (dispatch msg c ≡ some c') × IsSafe c'
unfolding dispatch
dispatch-IsSafe msg c h =
    idle_cases (dispatch_to msg msg.id) c (λ f b. dispatch_to-IsSafe msg msg.id c refl h) h

end_reader-IsSafe : (c : Client) → IsSafe c → (c' : Client) × (end_reader c ≡ some c') × IsSafe c'
unfolding end_reader
end_reader-IsSafe c h =
    idle_cases (λ c. with_calls (record c { read_failed = true }) (close_calls c.calls)) c
      (λ f b.
        let (cs', g, i, s) =
          close_calls-IsSound c.calls b (subst (λ x. All (IsSound x) c.calls) f h.sound) in
        (
          client_of c.next_id true cs',
          ap (with_calls (record c { read_failed = true })) g,
          record { numbered = i ∙ h.numbered; sound = s },
        ))
      h

step_client-IsSafe :
    (s : ClientStep) (c : Client)
    → IsSafe c
    → (c' : Client) × (step_client s c ≡ some c') × IsSafe c'
unfolding step_client
step_client-IsSafe begins c h = begin_call-IsSafe c.next_id c.read_failed c.calls h
step_client-IsSafe (writes id b) c h =
    on_call-IsSafe id (λ k. some (write_call b k)) c
      (λ k e s.
        let (i, s2) =
          write_call-IsSound c.read_failed k.id k.pending k.inbox k.closed k.held b k.phase s in
        (write_call b k, refl, i, s2))
      h
step_client-IsSafe (dispatches msg) c h = dispatch-IsSafe msg c h
step_client-IsSafe (sends id) c h =
    on_call-IsSafe id send_call c
      (λ k e s. send_call-IsSound c.read_failed k.id k.phase k.pending k.inbox k.closed k.held s) h
step_client-IsSafe (closes id) c h =
    on_call-IsSafe id shut_call c
      (λ k e s. shut_call-IsSound c.read_failed k.id k.phase k.pending k.inbox k.closed k.held s) h
step_client-IsSafe reader_ends c h = end_reader-IsSafe c h
step_client-IsSafe (times_out id) c h =
    on_call-IsSafe id (λ k. some (time_out_call k)) c
      (λ k e s.
        let (i, s2) =
          time_out_call-IsSound c.read_failed k.id k.pending k.inbox k.closed k.held k.phase s in
        (time_out_call k, refl, i, s2))
      h
step_client-IsSafe (receives id) c h =
    on_call-IsSafe id (λ k. some (receive_call k)) c
      (λ k e s.
        let (i, s2) =
          receive_call-IsSound c.read_failed k.id k.phase k.pending k.inbox k.closed k.held s in
        (receive_call k, refl, i, s2))
      h

run_client-IsSafe :
    (ss : List ClientStep) (c : Client)
    → IsSafe c
    → (c' : Client) × (run_client ss c ≡ some c') × IsSafe c'
unfolding run_client
run_client-IsSafe [] c h = (c, refl, h)
run_client-IsSafe (s ∷ ss) c h =
    let (c', e, h') = step_client-IsSafe s c h in
    let (d, e', hd) = run_client-IsSafe ss c' h' in
    (d, ap (λ o. then_steps o (run_client ss)) e ∙ e', hd)

new_client-IsSafe : IsSafe new_client
unfolding new_client ids down_from
new_client-IsSafe = record { numbered = refl; sound = tt }

-- However callers and reader interleave from a new client on, no step panics or blocks the reader: the run
-- ends in a client. In it the calls have the ids 1, 2, … up to the last one given, each once, the reply that
-- a call ended with or has in its channel carries the call's own id, a call that has not ended has its
-- channel in the map, held by the reader, or closed, and a channel in the map is open and empty while the
-- reader runs.
pub run_client_lem :
    (steps : List ClientStep) → (c : Client) × (run_client steps new_client ≡ some c) × IsSafe c
run_client_lem steps = run_client-IsSafe steps new_client new_client-IsSafe
