-- ===== src/Logs/Bus/Safety.antt =====
-- No sequence of calls on a new bus panics.
use matrix_runtime.Common.{
  subst, ℕ, zero, map, ltb, length, ◌&&◌, suc, ◌≡◌, refl, Bool, true, false, List, [], ◌∷◌, ◌++◌,
  Option, none, some, arith, not, if◌then◌else◌, Bool-cases, inl, inr, All,
}
use matrix_runtime.Logs.Bus.{
  Event, Sub, Bus, new_bus, publish, subscribe, cancel, close_bus, receive, each_member, offer,
  detach, cancel_at, receive_at, taken, capacity,
}

-- One call of a method.
pub data Call : Type 0 where
  publishing : Event → Call
  subscribing : Call
  cancelling : ℕ → Call
  closing : Call
  receiving : ℕ → Call

unfoldable pub perform : Call → Bus → Option Bus
unfolding publish subscribe cancel close_bus receive
perform (publishing e) b = publish e b
perform subscribing b = some (subscribe b).2
perform (cancelling i) b = cancel i b
perform closing b = close_bus b
perform (receiving i) b = some (receive i b)

abbrev then_perform : Option Bus → (Bus → Option Bus) → Option Bus
then_perform none k = none
then_perform (some b) k = k b

unfoldable pub perform_all : List Call → Bus → Option Bus
unfolding perform
perform_all [] b = some b
perform_all (c ∷ cs) b = then_perform (perform c b) (perform_all cs)

-- A channel is open exactly while the bus has it.
abbrev pub Tracked : Bool → Sub → Type 0
Tracked closed c = (c.member ≡ not c.closed) × (closed ≡ true → c.member ≡ false)

pub record IsSafe (b : Bus) : Type 0 where
  pub tracked : All (Tracked b.closed) b.subs

abbrev pub offered : Event → Sub → Sub
offered e c =
    if c.member && ltb (length c.buf) capacity then record c { buf = c.buf ++ e ∷ [] } else c

abbrev detached : Sub → Sub
detached c = if c.member then record c { closed = true; member = false } else c

each_member-offer :
    (e : Event) (cs : List Sub)
    → All (Tracked false) cs
    → each_member (offer e) cs ≡ some (map (offered e) cs)
unfolding each_member offer
each_member-offer e [] h = refl
each_member-offer e (c ∷ cs) h = ground (arith, each_member-offer e cs h.1)

map-offered :
    (e : Event) (cs : List Sub) → All (Tracked false) cs → All (Tracked false) (map (offered e) cs)
map-offered e [] h = tt
map-offered e (c ∷ cs) h = ground (arith, map-offered e cs h.1)

each_member-detach :
    (cs : List Sub) → All (Tracked false) cs → each_member detach cs ≡ some (map detached cs)
unfolding each_member detach
each_member-detach [] h = refl
each_member-detach (c ∷ cs) h = ground (arith, each_member-detach cs h.1)

map-detached : (cs : List Sub) → All (Tracked false) cs → All (Tracked true) (map detached cs)
map-detached [] h = tt
map-detached (c ∷ cs) h = ground (arith, map-detached cs h.1)

-- The cancel function closes the channel of its index, if the bus still has it.
abbrev detached_at : ℕ → List Sub → List Sub
detached_at i [] = []
detached_at zero (c ∷ cs) = detached c ∷ cs
detached_at (suc i) (c ∷ cs) = c ∷ detached_at i cs

cancel_at-detached :
    (t : Bool) (i : ℕ) (cs : List Sub)
    → All (Tracked t) cs
    → (cancel_at i cs ≡ some (detached_at i cs)) × All (Tracked t) (detached_at i cs)
unfolding cancel_at detach
cancel_at-detached t i [] h = (refl, tt)
cancel_at-detached t zero (c ∷ cs) h = (ground arith, ground arith)
cancel_at-detached t (suc i) (c ∷ cs) h =
    let (e, k) = cancel_at-detached t i cs h.1 in (rw e, (h.0, k))

receive_at-Tracked :
    (t : Bool) (i : ℕ) (cs : List Sub) → All (Tracked t) cs → All (Tracked t) (receive_at i cs)
unfolding receive_at
receive_at-Tracked t i [] h = tt
receive_at-Tracked t zero (c ∷ cs) h = (taken-Tracked c.buf h.0, h.1)
  where
    taken-Tracked : (es : List Event) → Tracked t c → Tracked t (taken c es)
    taken-Tracked [] k = k
    taken-Tracked (e ∷ es) k = k
receive_at-Tracked t (suc i) (c ∷ cs) h = (h.0, receive_at-Tracked t i cs h.1)

append-Tracked :
    (t : Bool) (c : Sub) (cs : List Sub)
    → Tracked t c
    → All (Tracked t) cs
    → All (Tracked t) (cs ++ c ∷ [])
append-Tracked t c [] h k = (h, tt)
append-Tracked t c (d ∷ cs) h k = (k.0, append-Tracked t c cs h k.1)

-- On an open bus `publish` records the event and offers it to every member.
pub publish-eq_of_open :
    (e : Event) (b : Bus)
    → IsSafe b
    → b.closed ≡ false
    → publish e b ≡ some (record b { history = b.history ++ e ∷ []; subs = map (offered e) b.subs })
unfolding publish
publish-eq_of_open e b s o =
    rw o (rw (each_member-offer e b.subs (subst (λ t. All (Tracked t) b.subs) o s.tracked)))

pub perform-IsSafe :
    (c : Call) (b : Bus) → IsSafe b → (b' : Bus) × (perform c b ≡ some b') × IsSafe b'
unfolding perform
perform-IsSafe (publishing e) b s = elim (Bool-cases b.closed) [
  | inl shut ↦ (b, rw shut, s)
  | inr o ↦
      let safe = subst (λ t. All (Tracked t) b.subs) o s.tracked in
      (_, publish-eq_of_open e b s o, record { tracked = rw o (map-offered e b.subs safe) })
]
perform-IsSafe subscribing b s =
    (_, refl, record { tracked = append-Tracked b.closed _ b.subs (ground arith) s.tracked })
perform-IsSafe (cancelling i) b s =
    let (e, k) = cancel_at-detached b.closed i b.subs s.tracked in
    (record b { subs = detached_at i b.subs }, rw e, record { tracked = k })
perform-IsSafe closing b s = elim (Bool-cases b.closed) [
  | inl shut ↦ (b, rw shut, s)
  | inr o ↦
      let safe = subst (λ t. All (Tracked t) b.subs) o s.tracked in
      (
        record b { closed = true; subs = map detached b.subs },
        rw o (rw (each_member-detach b.subs safe)),
        record { tracked = map-detached b.subs safe },
      )
]
perform-IsSafe (receiving i) b s =
    (_, refl, record { tracked = receive_at-Tracked b.closed i b.subs s.tracked })

perform_all-IsSafe :
    (cs : List Call) (b : Bus) → IsSafe b → (b' : Bus) × (perform_all cs b ≡ some b') × IsSafe b'
unfolding perform_all
perform_all-IsSafe [] b s = (b, refl, s)
perform_all-IsSafe (c ∷ cs) b s =
    let (b1, e, s1) = perform-IsSafe c b s in
    let (b2, f, s2) = perform_all-IsSafe cs b1 s1 in (b2, rw e f, s2)

-- Any sequence of calls on a new bus runs to its end without a panic, and leaves each channel open
-- exactly while the bus has it and none in a closed bus.
pub perform_all_no_panic :
    (cs : List Call) → (b : Bus) × (perform_all cs new_bus ≡ some b) × IsSafe b
unfolding new_bus
perform_all_no_panic cs = perform_all-IsSafe cs new_bus (record { tracked = tt })

pub publish-IsSafe :
    (e : Event) (b : Bus)
    → IsSafe b
    → (b' : Bus) × (publish e b ≡ some b')
      × IsSafe b'
      × (b'.closed ≡ b.closed)
      × (b'.history ≡ (if b.closed then b.history else b.history ++ e ∷ []))
publish-IsSafe e b s = elim (Bool-cases b.closed) [
  | inl shut ↦ (b, unfold publish in rw shut, s, refl, rw shut)
  | inr o ↦ (
    _,
    publish-eq_of_open e b s o,
    record {
      tracked = rw o (map-offered e b.subs (subst (λ t. All (Tracked t) b.subs) o s.tracked));
    },
    refl,
    rw o,
  )
]

pub close_bus-IsSafe :
    (b : Bus)
    → IsSafe b
    → (b' : Bus) × (close_bus b ≡ some b')
      × IsSafe b'
      × (b'.closed ≡ true)
      × (b'.history ≡ b.history)
unfolding close_bus
close_bus-IsSafe b s = elim (Bool-cases b.closed) [
  | inl shut ↦ (b, rw shut, s, shut, refl)
  | inr o ↦
      let safe = subst (λ t. All (Tracked t) b.subs) o s.tracked in
      (
        record b { closed = true; subs = map detached b.subs },
        rw o (rw (each_member-detach b.subs safe)),
        record { tracked = map-detached b.subs safe },
        refl,
        refl,
      )
]
