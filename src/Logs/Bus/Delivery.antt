-- ===== src/Logs/Bus/Delivery.antt =====
-- What a subscriber receives: the history at once, then the events that its channel has room for.
use matrix_runtime.Common.{
  ℕ, zero, suc, ◌≡◌, refl, ap, sym, ◌∙◌, true, false, List, [], ◌∷◌, ◌++◌, Option, none, some,
  arith, not, if◌then◌else◌, map, length, take, append_assoc, append-nil, ltb, subst,
}
use matrix_runtime.Logs.Bus.{Event, Sub, Bus, subscribe, capacity}
use matrix_runtime.Logs.Bus.Safety.{
  publishing, subscribing, perform, perform_all, IsSafe, offered, publish-eq_of_open,
  perform-IsSafe,
}

-- The first `n` of a list and one more element behind it, if there is room.
take-snoc :
    (n : ℕ) (xs : List Event) (e : Event)
    → take n (xs ++ e ∷ [])
      ≡ (if ltb (length (take n xs)) n then take n xs ++ e ∷ [] else take n xs)
take-snoc zero xs e = ground arith
take-snoc (suc zero) [] e = ground arith
take-snoc (suc (suc n)) [] e = ground arith
take-snoc (suc n) (x ∷ xs) e = ground (arith, take-snoc n xs e)

-- A subscriber whose channel is the last one, with the events published since it came.
record Follows (b : Bus) (before : ℕ) (hist seen : List Event) : Type 0 where
  others : List Sub
  own : Sub
  subs : b.subs ≡ others ++ own ∷ []
  place : length others ≡ before
  member : own.member ≡ true
  buf : own.buf ≡ take capacity seen
  history : b.history ≡ hist ++ seen
  open_bus : b.closed ≡ false

map-snoc :
    (e : Event) (cs : List Sub) (c : Sub)
    → map (offered e) (cs ++ c ∷ []) ≡ map (offered e) cs ++ offered e c ∷ []
map-snoc e [] c = refl
map-snoc e (d ∷ cs) c = ap (λ r. offered e d ∷ r) (map-snoc e cs c)

length-map : (e : Event) (cs : List Sub) → length (map (offered e) cs) ≡ length cs
length-map e [] = refl
length-map e (c ∷ cs) = ap suc (length-map e cs)

-- `offered` at a member, for a channel of any capacity.
abbrev buffered : ℕ → Event → List Event → List Event
buffered n e buf = if ltb (length buf) n then buf ++ e ∷ [] else buf

offered-member :
    (e : Event) (c : Sub)
    → c.member ≡ true
    → ((offered e c).member ≡ true) × ((offered e c).buf ≡ buffered capacity e c.buf)
offered-member e c m = ground arith

offered-buf :
    (e : Event) (c : Sub) (seen : List Event)
    → c.member ≡ true
    → c.buf ≡ take capacity seen
    → (offered e c).buf ≡ take capacity (seen ++ e ∷ [])
offered-buf e c seen m h =
    (offered-member e c m).1 ∙ ap (buffered capacity e) h ∙ sym (take-snoc capacity seen e)

joined-IsSafe : (b : Bus) → IsSafe b → IsSafe (subscribe b).2
unfolding perform
joined-IsSafe b s =
    let (b', e, s') = perform-IsSafe subscribing b s in subst (λ o. Holds o) (sym e) s'
  where
    Holds : Option Bus → Type 0
    Holds none = ⊥
    Holds (some c) = IsSafe c

joined-Follows : (b : Bus) → b.closed ≡ false → Follows (subscribe b).2 (length b.subs) b.history []
unfolding subscribe
joined-Follows b o = record {
  others = b.subs;
  own = record { buf = []; closed = b.closed; member = not b.closed };
  subs = refl;
  place = refl;
  member = ap not o;
  buf = refl;
  history = sym (append-nil b.history);
  open_bus = o;
}

publish-Follows :
    (e : Event) {b : Bus} {n : ℕ} {hist seen : List Event}
    → IsSafe b
    → Follows b n hist seen
    → (b' : Bus) × (perform (publishing e) b ≡ some b')
      × IsSafe b'
      × Follows b' n hist (seen ++ e ∷ [])
unfolding perform
publish-Follows e {b} {n} {hist} {seen} s f =
    let (b', done, s') = perform-IsSafe (publishing e) b s in
    let same = publish-eq_of_open e b s f.open_bus in
    (
      record b { history = b.history ++ e ∷ []; subs = map (offered e) b.subs },
      same,
      subst (λ o. After o) (sym done ∙ same) s',
      record {
        others = map (offered e) f.others;
        own = offered e f.own;
        subs = ap (map (offered e)) f.subs ∙ map-snoc e f.others f.own;
        place = length-map e f.others ∙ f.place;
        member = (offered-member e f.own f.member).0;
        buf = offered-buf e f.own seen f.member f.buf;
        history = ap (λ h. h ++ e ∷ []) f.history ∙ append_assoc hist seen (e ∷ []);
        open_bus = f.open_bus;
      },
    )
  where
    After : Option Bus → Type 0
    After none = ⊥
    After (some b') = IsSafe b'

publish_all-Follows :
    (es : List Event) {b : Bus} {n : ℕ} {hist seen : List Event}
    → IsSafe b
    → Follows b n hist seen
    → (b' : Bus) × (perform_all (map publishing es) b ≡ some b') × Follows b' n hist (seen ++ es)
unfolding perform_all
publish_all-Follows [] {b} {n} {hist} {seen} s f =
    (b, refl, subst (λ t. Follows b n hist t) (sym (append-nil seen)) f)
publish_all-Follows (e ∷ es) {b} {n} {hist} {seen} s f =
    let (b1, done, s1, f1) = publish-Follows e s f in
    let (b2, more, f2) = publish_all-Follows es s1 f1 in
    (b2, rw done more, subst (λ t. Follows b2 n hist t) (append_assoc seen (e ∷ []) es) f2)

-- On an open bus, a subscriber is given the history at once. When events are then published and it
-- takes none of them, its channel, the last one, holds exactly the first 64 of them, in order: the
-- rest is dropped from it, while the history goes on with all of them.
pub subscribe-delivers :
    (b : Bus) (es : List Event)
    → IsSafe b
    → b.closed ≡ false
    → let (hist, id, b1) = subscribe b in
      (b2 : Bus) × (perform_all (map publishing es) b1 ≡ some b2)
      × (hist ≡ b.history)
      × (b2.history ≡ hist ++ es)
      × ((others : List Sub) × (own : Sub) × (b2.subs ≡ others ++ own ∷ [])
          × (length others ≡ id)
          × (own.buf ≡ take capacity es))
unfolding subscribe
subscribe-delivers b es s o =
    let (b2, done, f) = publish_all-Follows es (joined-IsSafe b s) (joined-Follows b o) in
    (b2, done, refl, f.history, (f.others, f.own, f.subs, f.place, f.buf))
