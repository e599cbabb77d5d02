-- ===== src/Core/Metrics.antt =====
-- Metrics of core-go/main.go. A counter is an int64 that goes up by single messages, and is modelled
-- by a number: no run comes near 2^63 of them.
use zaman.Base.{ℕ, ◌+◌, ◌≡◌, refl, List, [], ◌∷◌, if◌then◌else◌, arith}
use zaman.Text.{Bytes, equal}
use zaman.Text.Split.{equal_iff}
use zaman.Text.Decimal.{ℤ, pos}

pub record Metrics : Type 0 where
  pub msgs_total : ℕ
  pub requests : ℕ
  pub responses : ℕ
  pub echoes : ℕ
  pub db_ok : ℕ
  pub db_err : ℕ
  pub db_drop : ℕ
  pub hep_total : ℕ
  pub hep_udp : ℕ
  pub hep_tcp : ℕ
  pub hep_tls : ℕ
  pub hep_err : ℕ
  pub hep_auth_fail : ℕ
  pub hep_deny : ℕ
  pub hep_sip : ℕ
  pub hep_rtcp : ℕ
  pub hep_rtp : ℕ
  pub hep_rtcpxr : ℕ
  pub hep_other : ℕ
  pub parse_err : ℕ
  pub probes_ok : ℕ
  pub probes_fail : ℕ
  pub probe_rtt : ℤ
  pub methods : List (Bytes × ℕ)
  pub status_2xx : ℕ
  pub status_4xx_5xx : ℕ

-- newMetrics, less the start time
abbrev pub new_metrics : Metrics
new_metrics = record {
  msgs_total = 0;
  requests = 0;
  responses = 0;
  echoes = 0;
  db_ok = 0;
  db_err = 0;
  db_drop = 0;
  hep_total = 0;
  hep_udp = 0;
  hep_tcp = 0;
  hep_tls = 0;
  hep_err = 0;
  hep_auth_fail = 0;
  hep_deny = 0;
  hep_sip = 0;
  hep_rtcp = 0;
  hep_rtp = 0;
  hep_rtcpxr = 0;
  hep_other = 0;
  parse_err = 0;
  probes_ok = 0;
  probes_fail = 0;
  probe_rtt = pos 0;
  methods = [];
  status_2xx = 0;
  status_4xx_5xx = 0;
}

-- `m.Methods[method]++`
unfoldable pub bump : Bytes → List (Bytes × ℕ) → List (Bytes × ℕ)
bump method [] = (method, 1) ∷ []
bump method ((m, n) ∷ rest) =
    if equal m method then (m, n + 1) ∷ rest else (m, n) ∷ bump method rest

unfoldable pub bump_method : Bytes → Metrics → Metrics
unfolding bump equal
bump_method method m = record m { methods = bump method m.methods }

-- The count of a method, 0 where the map has no entry.
pub count_of : Bytes → List (Bytes × ℕ) → ℕ
count_of method [] = 0
count_of method ((m, n) ∷ rest) = if equal m method then n else count_of method rest

unfoldable pub total : List (Bytes × ℕ) → ℕ
total [] = 0
total ((m, n) ∷ rest) = n + total rest

pub count_of-bump :
    (m method : Bytes) (counts : List (Bytes × ℕ))
    → count_of m (bump method counts)
      ≡ (if equal method m then count_of m counts + 1 else count_of m counts)
unfolding count_of bump
count_of-bump m method [] = refl
count_of-bump m method ((k, n) ∷ rest) =
    ground
      (arith, equal_iff k method, equal_iff k m, equal_iff method m, count_of-bump m method rest)

pub total-bump :
    (method : Bytes) (counts : List (Bytes × ℕ)) → total (bump method counts) ≡ total counts + 1
unfolding total bump
total-bump method [] = refl
total-bump method ((k, n) ∷ rest) = ground (arith, total-bump method rest)
