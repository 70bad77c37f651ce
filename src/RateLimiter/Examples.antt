-- ===== src/RateLimiter/Examples.antt =====
-- The limiter of the public endpoints, one token a second and a burst of thirty, on a few calls.
use pantau.Common.{
  ℕ, ◌+◌, ◌-◌, ◌*◌, ◌≤◌, ◌≡◌, refl, some, none, List, [], ◌∷◌, true, false, length, All, arith,
}
use pantau.Common.Text.{codes, teq, has_prefix, split, trim_space}
use pantau.Common.Map.{text_key, lookup}
use pantau.RateLimiter.{Net, Limiter, new_limiter, hash_ip, allow, reap, token, resolve_client_ip}
use pantau.RateLimiter.Credit.{
  Event, call, tick, LimiterOk, InOrder, end_of, admitted, admitted-le, bucket,
}

abbrev limiter : Limiter
limiter = new_limiter 1 30

abbrev calls : List Event
calls = call (codes "a") 5 ∷ call (codes "b") 6 ∷ tick 7 ∷ call (codes "a") 8 ∷ []

nobody : bucket (codes "a") limiter ≡ none
unfolding new_limiter lookup hash_ip
nobody = refl

limiter-LimiterOk : LimiterOk (codes "a") 0 limiter
unfolding new_limiter
limiter-LimiterOk = record {
  sixteen = refl;
  refills = omega arith;
  one_token = omega arith;
  seen = λ b there. absurd (ground (arith, there, nobody));
}

calls-InOrder : InOrder 0 calls
unfolding InOrder
calls-InOrder = (omega arith, (omega arith, (omega arith, (omega arith, tt))))

admitted-le_example :
    token * admitted (codes "a") calls limiter ≤ limiter.burst + (end_of 0 calls - 0) * limiter.rate
admitted-le_example = admitted-le (codes "a") 0 calls limiter limiter-LimiterOk calls-InOrder

both_admitted : admitted (codes "a") calls limiter ≡ 2
unfolding admitted teq allow lookup new_limiter hash_ip reap pantau.Common.Map.store
both_admitted = refl

abbrev called : Limiter
called = (allow (codes "a") 5 limiter).0

still_there :
    bucket (codes "a") (reap 7 called) ≡ some (record { tokens = 29 * token; last_seen = 5 })
unfolding lookup reap allow new_limiter hash_ip pantau.Common.Map.store teq
still_there = refl

-- Package net, for addresses that start with a digit; 127 is the loopback.
abbrev net : Net
net = record {
  split_host_port = λ a. none;
  parses = λ t. has_prefix t (codes "1");
  is_loopback = λ t. has_prefix t (codes "127");
  is_private = λ t. false;
}

from_proxy :
    resolve_client_ip net (codes "127.0.0.1") (codes "10.9.8.7, 1.1.1.1") [] ≡ codes "10.9.8.7"
unfolding resolve_client_ip has_prefix trim_space split
from_proxy = refl

from_outside : resolve_client_ip net (codes "18.2.3.4") (codes "10.9.8.7") [] ≡ codes "18.2.3.4"
unfolding resolve_client_ip has_prefix
from_outside = refl
