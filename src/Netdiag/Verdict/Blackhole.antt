-- ===== src/Netdiag/Verdict/Blackhole.antt =====
-- What the sweep of packet sizes takes for a black hole.
use pantau.Common.{ℕ, ◌-◌, ◌≡◌, Bool, not, ◌&&◌, ltb, arith, keep}
use pantau.Common.Text.{Text}
use pantau.Netdiag.Parsers.{GoLib}
use pantau.Netdiag.Outputs.{parse_mtu_ping}
use pantau.Netdiag.Verdict.{Command, mtu_ping, payloads, is_blackhole, sweep}

-- Whether packets of a size pass.
abbrev pub lets_pass : GoLib → (Command → Text) → Text → ℕ → Bool
lets_pass g exec ip size = parse_mtu_ping g (exec (mtu_ping size ip))

blackhole_of :
    (p : ℕ → Bool) (mtu : ℕ)
    → is_blackhole mtu (keep p (payloads mtu)) ≡ (ltb 28 mtu && p 1200 && not (p (mtu - 28)))
unfolding payloads is_blackhole
blackhole_of p mtu = ground arith

-- For every MTU, the sweep finds a black hole exactly if the MTU is above 28, packets of 1200 bytes
-- pass, and those that fill the MTU do not.
pub sweep_blackhole :
    (g : GoLib) (exec : Command → Text) (mtu : ℕ) (ip : Text)
    → (sweep g exec mtu ip).blackhole
      ≡ (ltb 28 mtu && lets_pass g exec ip 1200 && not (lets_pass g exec ip (mtu - 28)))
unfolding sweep payloads is_blackhole
sweep_blackhole g exec mtu ip = blackhole_of (lets_pass g exec ip) mtu
