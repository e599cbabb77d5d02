-- ===== src/Hep/Auth.antt =====
-- hepPasswordOK and hepPeerAllowed of core-go/hep.go, with `net.SplitHostPort`.
use zaman.Base.{
  ℕ, suc, ◌+◌, ◌-◌, ◌≡◌, refl, Bool, true, false, not, ◌&&◌, ◌||◌, Option, none, some, List, [],
  ◌∷◌, ◌==◌, if◌then◌else◌, is_nil, take, drop,
}
use zaman.Text.{Bytes, codes, equal, has_prefix}
use zaman.Core.Config.{Config}
use zaman.Hep.{HepInfo}

-- `hmac.Equal` on two texts: it compares them in constant time.
unfoldable pub constant_time_equal : Bytes → Bytes → Bool
unfolding equal
constant_time_equal = equal

unfoldable pub hep_password_ok : HepInfo → Config → Bool
unfolding constant_time_equal
hep_password_ok info cfg =
    if is_nil cfg.hep_password then true else constant_time_equal info.node_pw cfg.hep_password

-- `strings.IndexByte` and `strings.LastIndexByte`
unfoldable pub index_byte : ℕ → Bytes → Option ℕ
index_byte b [] = none
index_byte b (c ∷ s) =
    let rest = index_byte b s in
    if c == b then some 0 else (elim rest [ none ↦ none | some i ↦ some (suc i) ])

unfoldable pub last_index_byte : ℕ → Bytes → Option ℕ
last_index_byte b [] = none
last_index_byte b (c ∷ s) = elim (last_index_byte b s) [
  | none ↦ if c == b then some 0 else none
  | some i ↦ some (suc i)
]

abbrev has_byte : ℕ → Bytes → Bool
has_byte b s = elim (index_byte b s) [ none ↦ false | some _ ↦ true ]

-- The host of a text that is no bracketed address, up to its last colon at `i`.
plain_host : ℕ → Bytes → Bytes
unfolding index_byte
plain_host i s =
    let host = take i s in
    if has_byte b':' host || has_byte b'[' s || has_byte b']' s then [] else host

-- The host between brackets: the closing one stands in front of the last colon at `i`.
bracketed_host : ℕ → Bytes → Bytes
unfolding index_byte
bracketed_host i s = elim (index_byte b']' s) [
  | none ↦ []
  | some end ↦
      if end + 1 == i && not (has_byte b'[' (drop 1 s)) && not (has_byte b']' (drop (end + 1) s))
      then take (end - 1) (drop 1 s)
      else []
]

-- `net.SplitHostPort`: the host, and the empty text on every error.
unfoldable pub split_host : Bytes → Bytes
unfolding last_index_byte plain_host bracketed_host
split_host [] = []
split_host (c ∷ s) = elim (last_index_byte b':' (c ∷ s)) [
  | none ↦ []
  | some i ↦ if c == b'[' then bracketed_host i (c ∷ s) else plain_host i (c ∷ s)
]

-- The loop of hepPeerAllowed.
unfoldable pub host_allowed : Bytes → List Bytes → Bool
unfolding equal has_prefix
host_allowed host [] = false
host_allowed host (allowed ∷ rest) =
    equal host allowed || has_prefix host allowed || host_allowed host rest

unfoldable pub hep_peer_allowed : Bytes → Config → Bool
unfolding split_host host_allowed
hep_peer_allowed peer cfg =
    let host = split_host peer in
    if is_nil cfg.hep_allow
    then true
    else host_allowed (if is_nil host then peer else host) cfg.hep_allow

split_host_test :
    (split_host (codes "10.0.0.1:5060") ≡ codes "10.0.0.1")
    × (split_host (codes "[fe80::1]:9060") ≡ codes "fe80::1")
    × (split_host (codes "fe80::1:9060") ≡ [])
unfolding split_host
split_host_test = (refl, refl, refl)
