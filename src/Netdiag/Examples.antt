-- ===== src/Netdiag/Examples.antt =====
-- A route with a spike, and one that stops midway.
use pantau.Common.{◌≡◌, refl, false, some, List, [], ◌∷◌}
use pantau.Common.Text.{codes, teq}
use pantau.Netdiag.{HopInfo, degraded, analyze_hops}

abbrev gateway : HopInfo
gateway = record {
  hop = 1;
  host = codes "gw";
  ip = codes "10.0.0.1";
  rtt = 1000;
  zone = codes "private";
  status = codes "ok";
}

abbrev silent : HopInfo
silent = record gateway { hop = 2; rtt = 0; zone = codes "timeout"; status = codes "timeout" }

abbrev server : HopInfo
server = record gateway {
  hop = 3;
  host = codes "srv";
  ip = codes "1.1.1.1";
  rtt = 90000;
  zone = codes "destination";
}

abbrev slow : List HopInfo
slow = gateway ∷ silent ∷ server ∷ []

slow_degraded : (analyze_hops slow (codes "1.1.1.1") false).status ≡ degraded
unfolding analyze_hops teq
slow_degraded = refl

stopped_midway : (analyze_hops (gateway ∷ silent ∷ []) (codes "1.1.1.1") false).drop_at_hop ≡ some 1
unfolding analyze_hops teq
stopped_midway = refl
