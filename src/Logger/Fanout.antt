-- ===== src/Logger/Fanout.antt =====
-- What a subscriber of the broadcaster finds in its channel.
use pantau.Common.{
  ℕ, zero, suc, ◌+◌, ◌≤◌, ◌≡◌, refl, ap, ◌∙◌, inl, inr, some, List, [], ◌∷◌, ◌++◌, ◌==◌, ◌≢◌, map,
  ltb, length, take, append_assoc, append-nil, arith, Bool-cases, ==_iff, length-append,
}
use pantau.Common.Map.{Map, number_key, lookup, store, lookup-store_self, lookup-delete}
use pantau.Logger.{
  Event, Broadcaster, chan_cap, send, stamp, broadcast, broadcast_all, subscribe, unsubscribe,
}
use pantau.Logger.Ring.{stamp_all}

module _ {ℓ} {A : Type ℓ} where
  take_all : (c : ℕ) (xs : List A) → length xs ≤ c → take c xs ≡ xs
  take_all zero [] h = refl
  take_all zero (x ∷ xs) h = absurd (omega arith)
  take_all (suc c) [] h = refl
  take_all (suc c) (x ∷ xs) h = ap (◌∷◌ x) (take_all c xs (omega arith))

  take-append_le : (c : ℕ) (xs ys : List A) → c ≤ length xs → take c (xs ++ ys) ≡ take c xs
  take-append_le zero xs ys h = refl
  take-append_le (suc c) [] ys h = absurd (omega arith)
  take-append_le (suc c) (x ∷ xs) ys h = ap (◌∷◌ x) (take-append_le c xs ys (omega arith))

  take-take_append : (c : ℕ) (xs ys : List A) → take c (take c xs ++ ys) ≡ take c (xs ++ ys)
  take-take_append zero xs ys = refl
  take-take_append (suc c) [] ys = refl
  take-take_append (suc c) (x ∷ xs) ys = ap (◌∷◌ x) (take-take_append c xs ys)

  pub length-take_le : (c : ℕ) (xs : List A) → length (take c xs) ≤ c
  length-take_le zero xs = omega arith
  length-take_le (suc c) [] = omega arith
  length-take_le (suc c) (x ∷ xs) = omega (arith, length-take_le c xs)

-- A send into a channel adds at the end, up to the capacity.
pub send-take :
    (e : Event) (ch : ℕ) (q : List Event)
    → length q ≤ chan_cap
    → send e (ch, q) ≡ (ch, take chan_cap (q ++ e ∷ []))
unfolding send
send-take e ch q h = elim (Bool-cases (ltb (length q) chan_cap)) [
  | inl free ↦
      rw (free, take_all chan_cap (q ++ e ∷ []) (ground (arith, length-append q (e ∷ []), free)))
  | inr full ↦
      rw (full, take-append_le chan_cap q (e ∷ []) (ground (arith, full)), take_all chan_cap q h)
]

send_chan : (e : Event) (c : ℕ) (r : List Event) → (send e (c, r)).0 ≡ c
unfolding send
send_chan e c r = ground arith

lookup-send :
    (e : Event) (ch : ℕ) (m : Map ℕ (List Event)) (q : List Event)
    → lookup ch m ≡ some q
    → length q ≤ chan_cap
    → lookup ch (map (send e) m) ≡ some (take chan_cap (q ++ e ∷ []))
unfolding lookup
lookup-send e ch [] q found h = cc
lookup-send e ch ((c, r) ∷ m) q found h = elim (Bool-cases (c == ch)) [
  | inl here ↦
      let same : r ≡ q = ground (arith, here) in
      rw (send_chan e c r, here)
        (ap some (
          ap (λ p. p.1) (send-take e c r (rw same h)) ∙ ap (λ l. take chan_cap (l ++ e ∷ [])) same))
  | inr there ↦ rw (send_chan e c r, there) (lookup-send e ch m q (ground (arith, there)) h)
]

-- A subscriber that has `q` buffered and does not read: the channel takes what follows, in order,
-- until it holds 64 events.
pub lookup-broadcast_all :
    (ch : ℕ) (es : List Event) (b : Broadcaster) (q : List Event)
    → lookup ch b.subscribers ≡ some q
    → length q ≤ chan_cap
    → lookup ch (broadcast_all es b).subscribers
      ≡ some (take chan_cap (q ++ stamp_all b.next_id es))
unfolding broadcast_all stamp_all
lookup-broadcast_all ch [] b q found h = rw (append-nil, take_all chan_cap q h) found
lookup-broadcast_all ch (e ∷ es) b q found h =
    let sent = stamp (b.next_id + 1) e in
    lookup-broadcast_all ch es (broadcast e b) (take chan_cap (q ++ sent ∷ []))
      (unfold broadcast in lookup-send sent ch b.subscribers q found h)
      (length-take_le chan_cap (q ++ sent ∷ []))
    ∙ ap some (
        unfold broadcast in
        take-take_append chan_cap (q ++ sent ∷ []) (stamp_all (b.next_id + 1) es)
        ∙ ap (take chan_cap) (append_assoc q (sent ∷ []) (stamp_all (b.next_id + 1) es)))

-- A new subscriber that does not read finds the first 64 events since it subscribed, numbered and
-- redacted; another channel's subscription and its end change nothing of that.
pub subscribe-broadcast_all :
    (ch other : ℕ) (es : List Event) (b : Broadcaster)
    → ch ≢ other
    → lookup ch (broadcast_all es (unsubscribe other (subscribe ch b))).subscribers
      ≡ some (take chan_cap (stamp_all b.next_id es))
unfolding subscribe unsubscribe
subscribe-broadcast_all ch other es b distinct =
    lookup-broadcast_all ch es (unsubscribe other (subscribe ch b)) []
      (ground (
        arith,
        lookup-delete other ch (store ch [] b.subscribers),
        lookup-store_self ch [] b.subscribers,
        ==_iff other ch,
      ))
      (omega arith)
