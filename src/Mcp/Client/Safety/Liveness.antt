-- ===== src/Mcp/Client/Safety/Liveness.antt =====
-- internal/mcp/stdio_client.go: no caller waits for a reader that has ended.
use matrix_runtime.Common.{
  ℕ, ◌≡◌, refl, sym, ap, ◌∙◌, subst, Bool, true, false, List, [], ◌∷◌, Option, none, some, All,
  ◌==◌, Bool-cases, inl, inr, arith, some_inj,
}
use matrix_runtime.Mcp.Client.{
  Response, CallResult, answered, server_closed, CallPhase, writing, waiting, ended, Held, free,
  sending, closing, Call, Client, new_client, on_call, with_calls, receive_call, ClientStep,
  receives, step_client, run_client, find_call,
}
use matrix_runtime.Mcp.Client.Sound.{IsSound, call_of}
use matrix_runtime.Mcp.Client.Safety.{IsSafe, run_client_lem}

-- The end of a call that receives from a closed channel.
abbrev pub end_of : Option Response → CallResult
end_of none = server_closed
end_of (some msg) = answered msg

receive_call_ends :
    (id : ℕ) (pending : Bool) (inbox : Option Response) (closed : Bool) (held : Held)
    → IsSound true (call_of id waiting pending inbox closed held)
    → (receive_call (call_of id waiting pending inbox closed held)).phase ≡ ended (end_of inbox)
receive_call_ends id pending (some msg) closed held h = refl
receive_call_ends id pending none true held h = refl
receive_call_ends id false none false free h = ground (arith, h.heard)
receive_call_ends id false none false (sending msg) h = absurd (cc h.carried.3)
receive_call_ends id false none false closing h = absurd (cc h.carried.1)
receive_call_ends id true none false held h = ground (arith, h.fresh)

find_call-on_call :
    (id : ℕ) (f : Call → Call) (cs : List Call) (k : Call)
    → ((c : Call) → (f c).id ≡ c.id)
    → find_call id cs ≡ some k
    → (cs' : List Call) × (on_call id (λ c. some (f c)) cs ≡ some cs')
      × (find_call id cs' ≡ some (f k))
unfolding find_call on_call
find_call-on_call id f [] k i e = ground (arith, e)
find_call-on_call id f (c ∷ cs) k i e = elim (Bool-cases (c.id == id)) [
  | inl h ↦ (f c ∷ cs, ground (arith, h), ground (arith, h, i c, e))
  | inr h ↦
      let (cs', g, r) = find_call-on_call id f cs k i (ground (arith, h, e)) in
      (c ∷ cs', ground (arith, h, g), ground (arith, h, r))
]

All-find_call :
    (failed : Bool) (id : ℕ) (cs : List Call) (k : Call)
    → All (IsSound failed) cs
    → find_call id cs ≡ some k
    → IsSound failed k
unfolding find_call
All-find_call failed id [] k h e = ground (arith, e)
All-find_call failed id (c ∷ cs) k h e = elim (Bool-cases (c.id == id)) [
  | inl g ↦ subst (λ x. IsSound failed x) (some_inj (ground (arith, g, e))) h.0
  | inr g ↦ All-find_call failed id cs k h.1 (ground (arith, g, e))
]

receive_call-id :
    (id : ℕ) (p : CallPhase) (pending : Bool) (inbox : Option Response) (closed : Bool)
    (held : Held)
    → (receive_call (call_of id p pending inbox closed held)).id ≡ id
receive_call-id id writing pending inbox closed held = refl
receive_call-id id (ended r) pending inbox closed held = refl
receive_call-id id waiting pending (some msg) closed held = refl
receive_call-id id waiting pending none true held = refl
receive_call-id id waiting pending none false held = refl

receive_call_waiting_ends :
    (id : ℕ) (p : CallPhase) (pending : Bool) (inbox : Option Response) (closed : Bool)
    (held : Held)
    → p ≡ waiting
    → IsSound true (call_of id p pending inbox closed held)
    → (receive_call (call_of id p pending inbox closed held)).phase ≡ ended (end_of inbox)
receive_call_waiting_ends id waiting pending inbox closed held e h =
    receive_call_ends id pending inbox closed held h
receive_call_waiting_ends id writing pending inbox closed held e h = ground (arith, e)
receive_call_waiting_ends id (ended r) pending inbox closed held e h = ground (arith, e)

-- After any steps of callers and reader that leave the reader ended, a call that still waits ends when it
-- receives from its channel: with the reply in the channel, or, when there is none, with the error that the
-- server closed.
pub receives_ends_call :
    (steps : List ClientStep) (c : Client) (id : ℕ) (k : Call)
    → run_client steps new_client ≡ some c
    → c.read_failed ≡ true
    → find_call id c.calls ≡ some k
    → k.phase ≡ waiting
    → (c' : Client) × (k' : Call) × (step_client (receives id) c ≡ some c')
      × (find_call id c'.calls ≡ some k')
      × (k'.phase ≡ ended (end_of k.inbox))
unfolding step_client
receives_ends_call steps c id k run failed found waits =
    let (d, run', safe) = run_client_lem steps in
    let safe_c = subst IsSafe (some_inj (sym run' ∙ run)) safe in
    let sound =
      subst (λ b. IsSound b k) failed
        (All-find_call c.read_failed id c.calls k safe_c.sound found) in
    let (cs', g, r) =
      find_call-on_call id receive_call c.calls k
        (λ c. receive_call-id c.id c.phase c.pending c.inbox c.closed c.held) found in
    (
      record c { calls = cs' },
      receive_call k,
      ap (with_calls c) g,
      r,
      receive_call_waiting_ends k.id k.phase k.pending k.inbox k.closed k.held waits sound,
    )
