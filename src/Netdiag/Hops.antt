-- ===== src/Netdiag/Hops.antt =====
-- When a route is failed or degraded.
use pantau.Common.{
  ℕ, suc, ◌≡◌, ◌↔◌, refl, Bool, true, false, ◌||◌, Option, none, some, List, [], ◌∷◌, leb,
  if◌then◌else◌, length, some_of, arith,
}
use pantau.Common.Text.{Text}
use pantau.Netdiag.{
  HopInfo, degraded, failed, Scan, reaches, replies, diff_of, scan_hop, scan_hops, no_scan,
  conclude, analyze_hops,
}

abbrev is_some : Option HopInfo → Bool
is_some none = false
is_some (some h) = true

-- The differences between the times of successive replies.
unfoldable pub jumps : Option HopInfo → List HopInfo → List ℕ
jumps last [] = []
jumps last (h ∷ hops) =
    let reply = jumps (some h) hops in
    let silent = jumps last hops in if replies h then diff_of last h ∷ reply else silent

reached-scan_hops :
    (target : Text) (b : Bool) (i : ℕ) (hops : List HopInfo) (s : Scan)
    → is_some (scan_hops target b i hops s).reached
      ≡ (is_some s.reached || some_of (reaches target b) hops)
unfolding scan_hops scan_hop
reached-scan_hops target b i [] s = ground arith
reached-scan_hops target b i (h ∷ hops) s =
    ground (arith, reached-scan_hops target b (suc i) hops (scan_hop target b i h s))

max_diff-scan_hops :
    (target : Text) (b : Bool) (i : ℕ) (hops : List HopInfo) (s : Scan)
    → leb 70000 (scan_hops target b i hops s).max_diff
      ≡ (leb 70000 s.max_diff || some_of (leb 70000) (jumps s.last_replying hops))
unfolding scan_hops scan_hop jumps
max_diff-scan_hops target b i [] s = ground arith
max_diff-scan_hops target b i (h ∷ hops) s =
    ground (arith, max_diff-scan_hops target b (suc i) hops (scan_hop target b i h s))

-- A difference that is kept has its hop.
spike-scan_hops :
    (target : Text) (b : Bool) (i : ℕ) (hops : List HopInfo) (s : Scan)
    → (s.spike ≡ none → s.max_diff ≡ 0)
    → (scan_hops target b i hops s).spike ≡ none
    → (scan_hops target b i hops s).max_diff ≡ 0
unfolding scan_hops scan_hop
spike-scan_hops target b i [] s h = h
spike-scan_hops target b i (x ∷ hops) s h =
    spike-scan_hops target b (suc i) hops (scan_hop target b i x s) (λ e. ground (arith, h, e))

conclude_failed :
    (n : ℕ) (s : Scan) → ((conclude n s).status ≡ failed) ↔ (is_some s.reached ≡ false)
unfolding conclude
conclude_failed n s = ground arith

conclude_degraded :
    (n : ℕ) (s : Scan)
    → (s.spike ≡ none → s.max_diff ≡ 0)
    → ((conclude n s).status ≡ degraded)
      ↔ ((is_some s.reached ≡ true) × (leb 70000 s.max_diff ≡ true))
unfolding conclude
conclude_degraded n s h = ground (arith, h)

-- A route is failed exactly when no hop reaches the destination.
pub analyze_hops_failed :
    (hops : List HopInfo) (target : Text) (b : Bool)
    → ((analyze_hops hops target b).status ≡ failed) ↔ (some_of (reaches target b) hops ≡ false)
unfolding analyze_hops
analyze_hops_failed hops target b = ground (
  arith,
  conclude_failed (length hops) (scan_hops target b 0 hops no_scan),
  reached-scan_hops target b 0 hops no_scan,
)

-- A route is degraded exactly when a hop reaches the destination and some reply takes 70 ms or more
-- longer than the reply before it, with silent hops passed over.
pub analyze_hops_degraded :
    (hops : List HopInfo) (target : Text) (b : Bool)
    → ((analyze_hops hops target b).status ≡ degraded)
      ↔ ((some_of (reaches target b) hops ≡ true) × (some_of (leb 70000) (jumps none hops) ≡ true))
unfolding analyze_hops
analyze_hops_degraded hops target b = ground (
  arith,
  conclude_degraded (length hops) (scan_hops target b 0 hops no_scan)
      (spike-scan_hops target b 0 hops no_scan (λ e. refl)),
  reached-scan_hops target b 0 hops no_scan,
  max_diff-scan_hops target b 0 hops no_scan,
)
