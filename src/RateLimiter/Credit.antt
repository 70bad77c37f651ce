-- ===== src/RateLimiter/Credit.antt =====
-- How many requests of one address the limiter lets through.
use mathlib.Core.Path.{subst, subst₂}
use pantau.Common.{
  ℕ, ◌+◌, ◌-◌, ◌*◌, ◌≤◌, ◌<◌, ◌≡◌, refl, sym, ap, ◌∙◌, ◌⊎◌, inl, inr, Bool, true, false, Option,
  none, some, List, [], ◌∷◌, map, ltb, leb, ◌==◌, if◌then◌else◌, length, get_or, arith, Bool-cases,
  Option-cases, length-set, length-map, get_or-set, get_or-map,
}
use pantau.Common.Text.{Text, teq, teq_iff}
use pantau.Common.Map.{text_key, lookup, store, lookup-store, lookup-delete}
use pantau.RateLimiter.{
  Bucket, Shard, Limiter, token, idle_limit, shard_idx, shard, put, refill, allow, reap_key,
  reap_keys, reap_shard, reap, key_of,
}

abbrev pub bucket : Text → Limiter → Option Bucket
bucket ip l = lookup ip (shard ip l)

shard_idx_lt : (ip : Text) → shard_idx ip < 16
shard_idx_lt ip = omega arith

pub shard-put :
    (ip j : Text) (b : Bucket) (l : Limiter)
    → length l.shards ≡ 16
    → shard j (put ip b l)
      ≡ (if shard_idx ip == shard_idx j then store ip b (shard ip l) else shard j l)
unfolding put
shard-put ip j b l h =
    get_or-set l.shards (shard_idx ip) (shard_idx j) (store ip b (shard ip l)) []
      (omega (arith, shard_idx_lt ip))

bucket-put :
    (ip j : Text) (b : Bucket) (l : Limiter)
    → length l.shards ≡ 16
    → bucket j (put ip b l) ≡ (if teq ip j then some b else bucket j l)
bucket-put ip j b l h = elim (Bool-cases (teq ip j)) [
  | inl same ↦
      let at : ip ≡ j = (teq_iff ip j).0 same in
      ground
        (arith, same, at, ap shard_idx at, shard-put ip j b l h, lookup-store ip j b (shard ip l))
  | inr other ↦ elim (Bool-cases (shard_idx ip == shard_idx j)) [
    | inl near ↦
        let together : shard ip l ≡ shard j l =
          ap (λ (i : ℕ). get_or l.shards i []) (ground (arith, near)) in
        ground (
          arith,
          other,
          near,
          shard-put ip j b l h,
          lookup-store ip j b (shard ip l),
          ap (lookup j) together,
        )
    | inr far ↦ ground (arith, other, far, shard-put ip j b l h)
  ]
]

reap_key-lookup :
    (now : ℕ) (ip j : Text) (m : Shard)
    → (lookup j (reap_key now ip m) ≡ lookup j m)
      ⊎ ((b : Bucket) × (lookup j m ≡ some b)
          × (idle_limit < now - b.last_seen)
          × (lookup j (reap_key now ip m) ≡ none))
unfolding reap_key
reap_key-lookup now ip j m = elim (Option-cases (lookup ip m)) [
  | inl gone ↦ ground (arith, gone)
  | inr (b, there) ↦ elim (Bool-cases (ltb idle_limit (now - b.last_seen))) [
    | inl idle ↦ elim (Bool-cases (teq ip j)) [
      | inl same ↦ ground (arith, idle, same, (teq_iff ip j).0 same, there, lookup-delete ip j m)
      | inr other ↦ ground (arith, idle, other, there, lookup-delete ip j m)
    ]
    | inr busy ↦ ground (arith, busy, there)
  ]
]

-- The units that an address can still use at `now`, where an unknown address has a full bucket.
abbrev pub credit : ℕ → ℕ → ℕ → Option Bucket → ℕ
credit rate burst now none = burst
credit rate burst now (some b) = refill rate burst now b

gap_mul : (a b c r : ℕ) → a ≤ b → b ≤ c → (c - a) * r ≡ (b - a) * r + (c - b) * r
gap_mul a b c r h k =
    let e : c - a ≡ (b - a) + (c - b) = omega arith in ap (λ (x : ℕ). x * r) e ∙ omega arith

credit_grows :
    (rate burst t now : ℕ) (b : Bucket)
    → b.last_seen ≤ t
    → t ≤ now
    → refill rate burst now b ≤ refill rate burst t b + (now - t) * rate
unfolding refill
credit_grows rate burst t now b h k = ground (arith, gap_mul b.last_seen t now rate h k)

-- An entry of a map, before and after a cleaning: it stays, or it was idle and is gone.
unfoldable pub Reaped : ℕ → Option Bucket → Option Bucket → Type 0
Reaped now before after =
    (after ≡ before)
    ⊎ ((b : Bucket) × (before ≡ some b) × (idle_limit < now - b.last_seen) × (after ≡ none))

pub reap_keys-lookup :
    (now : ℕ) (ips : List Text) (j : Text) (m : Shard)
    → Reaped now (lookup j m) (lookup j (reap_keys now ips m))
unfolding reap_keys Reaped
reap_keys-lookup now [] j m = inl refl
reap_keys-lookup now (ip ∷ ips) j m =
    join_steps (reap_key-lookup now ip j m) (reap_keys-lookup now ips j (reap_key now ip m))
  where
    join_steps : {x y z : Option Bucket} → Reaped now x y → Reaped now y z → Reaped now x z
    join_steps (inl e) (inl d) = inl (d ∙ e)
    join_steps (inl e) (inr (b, f, idle, gone)) = inr (b, sym e ∙ f, idle, gone)
    join_steps (inr (b, e, idle, gone)) (inl d) = inr (b, e, idle, d ∙ gone)
    join_steps (inr (b, e, idle, gone)) (inr (c, f, late, last)) = inr (b, e, idle, last)

bucket-reap : (now : ℕ) (j : Text) (l : Limiter) → Reaped now (bucket j l) (bucket j (reap now l))
unfolding reap reap_shard reap_keys
bucket-reap now j l =
    subst (λ m. Reaped now (bucket j l) (lookup j m))
      (sym (get_or-map (reap_shard now) l.shards (shard_idx j) []))
      (reap_keys-lookup now (map key_of (shard j l)) j (shard j l))

-- What happens to a limiter, in the order of the locks: a call for an address, or a tick of the
-- reaper.
pub data Event : Type 0 where
  call : Text → ℕ → Event
  tick : ℕ → Event

abbrev pub time_of : Event → ℕ
time_of (call ip t) = t
time_of (tick t) = t

abbrev pub apply : Event → Limiter → Limiter
apply (call ip t) l = (allow ip t l).0
apply (tick t) l = reap t l

abbrev one_if : Bool → ℕ
one_if true = 1
one_if false = 0

-- 1 for a call of this address that goes through
abbrev pub let_in : Text → Event → Limiter → ℕ
let_in ip (call j t) l = if teq j ip then one_if (allow j t l).1 else 0
let_in ip (tick t) l = 0

-- The calls of an address that go through.
unfoldable pub admitted : Text → List Event → Limiter → ℕ
admitted ip [] l = 0
admitted ip (e ∷ es) l = let_in ip e l + admitted ip es (apply e l)

-- The events come in the order of the clock, from `t` on.
unfoldable pub InOrder : ℕ → List Event → Type 0
InOrder t [] = Unit
InOrder t (e ∷ es) = (t ≤ time_of e) × InOrder (time_of e) es

abbrev pub end_of : ℕ → List Event → ℕ
end_of t [] = t
end_of t (e ∷ es) = end_of (time_of e) es

-- No bucket was seen later than `t`, and an idle bucket is full again when it is forgotten.
pub record LimiterOk (ip : Text) (t : ℕ) (l : Limiter) : Type 0 where
  pub sixteen : length l.shards ≡ 16
  pub refills : l.burst ≤ idle_limit * l.rate
  pub one_token : token ≤ l.burst
  pub seen : (b : Bucket) → bucket ip l ≡ some b → b.last_seen ≤ t

-- A call either finds no room for a new bucket, or leaves a bucket that has paid for its token.
allow_effect :
    (ip : Text) (now : ℕ) (l : Limiter)
    → token ≤ l.burst
    → ((allow ip now l ≡ (l, false)) × (bucket ip l ≡ none))
      ⊎ ((b : Bucket) × ((allow ip now l).0 ≡ put ip b l)
          × (b.last_seen ≡ now)
          × (b.tokens + token * one_if (allow ip now l).1
              ≡ credit l.rate l.burst now (bucket ip l)))
unfolding allow
allow_effect ip now l h = elim (Option-cases (bucket ip l)) [
  | inl new ↦ elim (Bool-cases (leb l.max_per_map (length (shard ip l)))) [
    | inl full ↦ inl (ground (arith, new, full), new)
    | inr room ↦ inr (
      record { tokens = l.burst - token; last_seen = now },
      ground (arith, new, room),
      refl,
      ground (arith, new, room),
    )
  ]
  | inr (b, there) ↦ elim (Bool-cases (leb token (refill l.rate l.burst now b))) [
    | inl pays ↦ inr (
      record { tokens = refill l.rate l.burst now b - token; last_seen = now },
      ground (arith, there, pays),
      refl,
      ground (arith, there, pays),
    )
    | inr poor ↦ inr (
      record { tokens = refill l.rate l.burst now b; last_seen = now },
      ground (arith, there, poor),
      refl,
      ground (arith, there, poor),
    )
  ]
]

-- What one event does to an address: it keeps the invariant, and what it lets in is paid for.
record Spends (ip : Text) (t : ℕ) (e : Event) (l : Limiter) : Type 0 where
  ok : LimiterOk ip (time_of e) (apply e l)
  same_rate : (apply e l).rate ≡ l.rate
  same_burst : (apply e l).burst ≡ l.burst
  paid :
      token * let_in ip e l + credit l.rate l.burst (time_of e) (bucket ip (apply e l))
      ≤ credit l.rate l.burst t (bucket ip l) + (time_of e - t) * l.rate

credit_later :
    (ip : Text) (t now : ℕ) (l : Limiter)
    → LimiterOk ip t l
    → t ≤ now
    → credit l.rate l.burst now (bucket ip l)
      ≤ credit l.rate l.burst t (bucket ip l) + (now - t) * l.rate
credit_later ip t now l ok h = elim (Option-cases (bucket ip l)) [
  | inl new ↦ ground (arith, new)
  | inr (b, there) ↦ ground (arith, there, credit_grows l.rate l.burst t now b (ok.seen b there) h)
]

still_ok :
    (ip : Text) (t now : ℕ) (l k : Limiter)
    → LimiterOk ip t l
    → k.rate ≡ l.rate
    → k.burst ≡ l.burst
    → length k.shards ≡ length l.shards
    → ((b : Bucket) → bucket ip k ≡ some b → b.last_seen ≤ now)
    → LimiterOk ip now k
still_ok ip t now l k ok rate burst same seen = record {
  sixteen = same ∙ ok.sixteen;
  refills = rw (rate, burst) ok.refills;
  one_token = rw burst ok.one_token;
  seen = seen;
}

refill_now :
    (rate burst now : ℕ) (b : Bucket) → b.last_seen ≡ now → refill rate burst now b ≤ b.tokens
unfolding refill
refill_now rate burst now b at =
    let gone : (now - b.last_seen) * rate ≡ 0 =
      ap (λ (x : ℕ). x * rate) (sub_self now b.last_seen at) ∙ omega arith in
    ground (arith, gone)
  where
    sub_self : (n m : ℕ) → m ≡ n → n - m ≡ 0
    sub_self n m e = omega arith

put_pays :
    (ip j : Text) (t now : ℕ) (l : Limiter) (b : Bucket)
    → LimiterOk ip t l
    → t ≤ now
    → (allow j now l).0 ≡ put j b l
    → b.last_seen ≡ now
    → b.tokens + token * one_if (allow j now l).1 ≡ credit l.rate l.burst now (bucket j l)
    → Spends ip t (call j now) l
unfolding put
put_pays ip j t now l b ok h e at pays = elim (Bool-cases (teq j ip)) [
  | inl same ↦
      let here : bucket ip (allow j now l).0 ≡ some b =
        ground (arith, same, ap (bucket ip) e, bucket-put j ip b l ok.sixteen) in
      let mine : bucket j l ≡ bucket ip l = ap (λ a. bucket a l) ((teq_iff j ip).0 same) in
      record {
        ok =
            still_ok ip t now l (allow j now l).0 ok (ap (λ x. x.rate) e) (ap (λ x. x.burst) e)
              (ap (λ x. length x.shards) e
                ∙ length-set l.shards (shard_idx j) (store j b (shard j l)))
              (λ c there. ground (arith, here, there, at));
        same_rate = ap (λ x. x.rate) e;
        same_burst = ap (λ x. x.burst) e;
        paid = ground (
          arith,
          same,
          here,
          mine,
          pays,
          refill_now l.rate l.burst now b at,
          credit_later ip t now l ok h,
        );
      }
  | inr other ↦
      let here : bucket ip (allow j now l).0 ≡ bucket ip l =
        ground (arith, other, ap (bucket ip) e, bucket-put j ip b l ok.sixteen) in
      record {
        ok =
            still_ok ip t now l (allow j now l).0 ok (ap (λ x. x.rate) e) (ap (λ x. x.burst) e)
              (ap (λ x. length x.shards) e
                ∙ length-set l.shards (shard_idx j) (store j b (shard j l)))
              (λ c there. omega (arith, ok.seen c (sym here ∙ there)));
        same_rate = ap (λ x. x.rate) e;
        same_burst = ap (λ x. x.burst) e;
        paid = ground (arith, other, here, credit_later ip t now l ok h);
      }
]

call_pays :
    (ip j : Text) (t now : ℕ) (l : Limiter)
    → LimiterOk ip t l
    → t ≤ now
    → Spends ip t (call j now) l
call_pays ip j t now l ok h = elim (allow_effect j now l ok.one_token) [
  | inl (still, new) ↦
      let same : (allow j now l).0 ≡ l = ap (λ r. r.0) still in
      let shut : (allow j now l).1 ≡ false = ap (λ r. r.1) still in
      record {
        ok =
            still_ok ip t now l (allow j now l).0 ok (ap (λ x. x.rate) same)
              (ap (λ x. x.burst) same) (ap (λ x. length x.shards) same)
              (λ c there. omega (arith, ok.seen c (sym (ap (bucket ip) same) ∙ there)));
        same_rate = ap (λ x. x.rate) same;
        same_burst = ap (λ x. x.burst) same;
        paid = ground (arith, shut, ap (bucket ip) same, credit_later ip t now l ok h);
      }
  | inr (b, e, at, pays) ↦ put_pays ip j t now l b ok h e at pays
]

full_again :
    (now : ℕ) (b : Bucket) (l : Limiter)
    → l.burst ≤ idle_limit * l.rate
    → idle_limit < now - b.last_seen
    → refill l.rate l.burst now b ≡ l.burst
unfolding refill
full_again now b l refills idle =
    let much : idle_limit * l.rate ≤ (now - b.last_seen) * l.rate = grind arith in
    ground (arith, much)

tick_pays :
    (ip : Text) (t now : ℕ) (l : Limiter) → LimiterOk ip t l → t ≤ now → Spends ip t (tick now) l
unfolding reap Reaped
tick_pays ip t now l ok h = elim (bucket-reap now ip l) [
  | inl same ↦ record {
    ok =
        still_ok ip t now l (reap now l) ok refl refl (length-map (reap_shard now) l.shards)
          (λ c there. omega (arith, ok.seen c (sym same ∙ there)));
    same_rate = refl;
    same_burst = refl;
    paid = ground (arith, same, credit_later ip t now l ok h);
  }
  | inr (b, there, idle, gone) ↦ record {
    ok =
        still_ok ip t now l (reap now l) ok refl refl (length-map (reap_shard now) l.shards)
          (λ c back. absurd (ground (arith, gone, back)));
    same_rate = refl;
    same_burst = refl;
    paid = ground (
      arith,
      gone,
      there,
      ok.refills,
      full_again now b l ok.refills idle,
      credit_later ip t now l ok h,
    );
  }
]

pays_for :
    (ip : Text) (t : ℕ) (e : Event) (l : Limiter)
    → LimiterOk ip t l
    → t ≤ time_of e
    → Spends ip t e l
pays_for ip t (call j now) l ok h = call_pays ip j t now l ok h
pays_for ip t (tick now) l ok h = tick_pays ip t now l ok h

end_of_le : (t : ℕ) (es : List Event) → InOrder t es → t ≤ end_of t es
unfolding InOrder
end_of_le t [] order = omega arith
end_of_le t (e ∷ es) order = omega (arith, order.0, end_of_le (time_of e) es order.1)

pays_all :
    (ip : Text) (t : ℕ) (es : List Event) (l : Limiter)
    → LimiterOk ip t l
    → InOrder t es
    → token * admitted ip es l ≤ credit l.rate l.burst t (bucket ip l) + (end_of t es - t) * l.rate
unfolding admitted InOrder
pays_all ip t [] l ok order = omega arith
pays_all ip t (e ∷ es) l ok order =
    let s : Spends ip t e l = pays_for ip t e l ok order.0 in
    let later : token * admitted ip es (apply e l)
        ≤ credit l.rate l.burst (time_of e) (bucket ip (apply e l))
          + (end_of (time_of e) es - time_of e) * l.rate =
      subst₂
        (λ r b.
          token * admitted ip es (apply e l)
          ≤ credit r b (time_of e) (bucket ip (apply e l))
            + (end_of (time_of e) es - time_of e) * r)
        s.same_rate s.same_burst (pays_all ip (time_of e) es (apply e l) s.ok order.1) in
    omega (
      arith,
      s.paid,
      later,
      gap_mul t (time_of e) (end_of (time_of e) es) l.rate order.0
          (end_of_le (time_of e) es order.1),
    )

credit_le : (rate burst t : ℕ) (o : Option Bucket) → credit rate burst t o ≤ burst
unfolding refill
credit_le rate burst t none = omega arith
credit_le rate burst t (some b) = ground arith

-- Over any calls and ticks in the order of the clock, with calls of other addresses among them, an
-- address is let in at most `burst + rate * elapsed` tokens' worth of times, if its bucket was not
-- seen later than the start and the reaper forgets a bucket only when it is full again.
pub admitted-le :
    (ip : Text) (t : ℕ) (es : List Event) (l : Limiter)
    → LimiterOk ip t l
    → InOrder t es
    → token * admitted ip es l ≤ l.burst + (end_of t es - t) * l.rate
admitted-le ip t es l ok order =
    omega (arith, pays_all ip t es l ok order, credit_le l.rate l.burst t (bucket ip l))
