-- ===== src/Probe/Outcomes.antt =====
-- How a probe may end.
use zaman.Base.{
  ℕ, ◌+◌, ◌≤◌, ◌≡◌, refl, Bool, true, false, ◌&&◌, not, Option, none, some, is_nil, arith,
  if_splits,
}
use zaman.Text.{Bytes}
use zaman.Text.Decimal.{ℤ, pos, negsuc, show}
use zaman.Core.Config.{Config}
use zaman.Core.Metrics.{Metrics}
use zaman.Probe.{
  ProbeRequest, in_range_or, Network, no_connection, no_answer, answered, Stamp, ProbeResult,
  join_host_port, options_message, is_blocked_host, send_probe, do_probe,
}

module _ (parse_ip : Bytes → Option Bytes) where
  -- May the host be dialled: the checks of the handler, taken together.
  pub may_dial : Config → Option ProbeRequest → Bool
  may_dial cfg none = false
  may_dial cfg (some r) =
      cfg.probe_enabled && not (is_nil r.host) && not (is_blocked_host parse_ip r.host cfg)

  -- Nothing is sent and nothing is counted, or one probe is counted, and what was sent is one OPTIONS
  -- request to the host at a port that exists.
  pub data Outcome (cfg : Config) (request : Option ProbeRequest) (s : Stamp) (m : Metrics)
      (result : ProbeResult) : Type 0 where
    untouched :
        may_dial cfg request ≡ false
        → result.sent ≡ none
        → result.metrics ≡ m
        → Outcome cfg request s m result
    failed :
        may_dial cfg request ≡ true
        → result.sent ≡ none
        → result.metrics.probes_fail ≡ m.probes_fail + 1
        → result.metrics.probes_ok ≡ m.probes_ok
        → Outcome cfg request s m result
    dialled :
        (r : ProbeRequest) (port : ℕ)
        → request ≡ some r
        → may_dial cfg request ≡ true
        → 1 ≤ port
        → port ≤ 65535
        → result.sent ≡ some (join_host_port r.host (show port), options_message r.host s)
        → result.metrics.probes_ok + result.metrics.probes_fail ≡ m.probes_ok + m.probes_fail + 1
        → Outcome cfg request s m result

  in_range_or_bounds :
      (most usual : ℕ) (n : ℤ)
      → 1 ≤ usual
      → usual ≤ most
      → (1 ≤ in_range_or most usual n) × (in_range_or most usual n ≤ most)
  unfolding in_range_or
  in_range_or_bounds most usual (pos n) h k = ground arith
  in_range_or_bounds most usual (negsuc n) h k = (h, k)

  send_probe-Outcome :
      (cfg : Config) (r : ProbeRequest) (s : Stamp) (net : Network) (m : Metrics)
      → may_dial cfg (some r) ≡ true
      → Outcome cfg
          (some r)
          s
          m
          (send_probe parse_ip r.host (in_range_or 65535 5060 r.port) s net m)
  unfolding send_probe
  send_probe-Outcome cfg r s (no_connection e) m may = failed may refl refl refl
  send_probe-Outcome cfg r s (no_answer rtt) m may =
      let (low, high) = in_range_or_bounds 65535 5060 r.port (omega arith) (omega arith) in
      dialled r (in_range_or 65535 5060 r.port) refl may low high refl (omega arith)
  send_probe-Outcome cfg r s (answered reply rtt) m may =
      let (low, high) = in_range_or_bounds 65535 5060 r.port (omega arith) (omega arith) in
      dialled r (in_range_or 65535 5060 r.port) refl may low high refl (omega arith)

  -- A probe that is disabled, has no host in its body or is for a blocked host sends nothing and leaves
  -- the counters as they are. Any other is counted once, as failed where there is no connection, and
  -- sends at most one OPTIONS request, to the host of the body at a port between 1 and 65535.
  pub do_probe-Outcome :
      (cfg : Config) (request : Option ProbeRequest) (s : Stamp) (net : ℕ → Network) (m : Metrics)
      → Outcome cfg request s m (do_probe parse_ip cfg request s net m)
  unfolding do_probe may_dial
  do_probe-Outcome cfg none s net m =
      if_splits (Outcome cfg none s m) (not cfg.probe_enabled) _ _ (λ e. untouched refl refl refl)
        (λ e. untouched refl refl refl)
  do_probe-Outcome cfg (some r) s net m =
      let P = Outcome cfg (some r) s m in
      if_splits P (not cfg.probe_enabled) _ _
        (λ disabled. untouched (ground (arith, disabled)) refl refl)
        (λ enabled.
          if_splits P (is_nil r.host) _ _ (λ empty. untouched (ground (arith, empty)) refl refl)
            (λ host.
              if_splits P (is_blocked_host parse_ip r.host cfg) _ _
                (λ blocked. untouched (ground (arith, blocked)) refl refl)
                (λ free.
                  send_probe-Outcome cfg r s (net (in_range_or 5000 3000 r.wait_ms)) m
                    (ground (arith, enabled, host, free)))))
