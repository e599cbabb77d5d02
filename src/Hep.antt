-- ===== src/Hep.antt =====
-- The HEP3 decoder of core-go/hep.go. The rest of that file is modelled by the modules below.
pub mod Auth
pub mod Decode
pub mod Drain
pub mod Format
pub mod Handle
pub mod Packet
pub mod Session
use zaman.Base.{
  ℕ, zero, suc, ◌+◌, ◌-◌, ◌*◌, ◌/◌, ◌≡◌, refl, Bool, true, false, ◌&&◌, ◌||◌, List, [], ◌∷◌, ◌++◌,
  reverse, min, ltb, leb, ◌==◌, if◌then◌else◌, length, take, drop, is_nil,
}
use zaman.Text.{Bytes, codes, contains, join}
use zaman.Text.Decimal.{show, show_hex}

-- The bytes of `NodePW`, `Payload` and so on are Go strings and slices.
pub record HepInfo : Type 0 where
  pub ok : Bool
  pub version : ℕ
  pub ip_proto : ℕ
  pub src_ip : Bytes
  pub dst_ip : Bytes
  pub src_port : ℕ
  pub dst_port : ℕ
  pub t_sec : ℕ
  pub t_usec : ℕ
  pub proto_type : ℕ
  pub node_id : ℕ
  pub node_pw : Bytes
  pub node_name : Bytes
  pub correlation_id : Bytes
  pub payload : Bytes

-- `var info HEPInfo`
abbrev pub no_info : HepInfo
no_info = record {
  ok = false;
  version = 0;
  ip_proto = 0;
  src_ip = [];
  dst_ip = [];
  src_port = 0;
  dst_port = 0;
  t_sec = 0;
  t_usec = 0;
  proto_type = 0;
  node_id = 0;
  node_pw = [];
  node_name = [];
  correlation_id = [];
  payload = [];
}

-- `binary.BigEndian.Uint16` and `Uint32` on the bytes given
abbrev pub be16 : ℕ → ℕ → ℕ
be16 a b = a * 256 + b

abbrev pub be32 : ℕ → ℕ → ℕ → ℕ → ℕ
be32 a b c d = ((a * 256 + b) * 256 + c) * 256 + d

-- TsMs. Both fields are below 2^32, so the int64 arithmetic does not wrap.
unfoldable pub ts_ms : HepInfo → ℕ
ts_ms h = h.t_sec * 1000 + h.t_usec / 1000

-- Endpoint
unfoldable pub endpoint : Bytes → ℕ → Bytes
unfolding contains show
endpoint ip port =
    if contains ip (b':' ∷ [])
    then b'[' ∷ (ip ++ (b']' ∷ b':' ∷ show port))
    else ip ++ (b':' ∷ show port)

-- Src, Dst
unfoldable pub src : HepInfo → Bytes
unfolding endpoint
src h = endpoint h.src_ip h.src_port

unfoldable pub dst : HepInfo → Bytes
unfolding endpoint
dst h = endpoint h.dst_ip h.dst_port

-- AgentLabel
unfoldable pub agent_label : HepInfo → Bytes
unfolding show
agent_label h =
    if is_nil h.node_name
    then if ltb 0 h.node_id then codes "hep-" ++ show h.node_id else codes "hep-0"
    else h.node_name

-- protoTypeName
unfoldable pub proto_type_name : ℕ → Bytes
proto_type_name t =
    if t == 1
    then codes "sip"
    else if t == 5
    then codes "rtcp"
    else if t == 34
    then codes "rtpagent"
    else if t == 35
    then codes "rtcpxr"
    else if t == 38
    then codes "horaclifix"
    else if t == 53
    then codes "dns"
    else if t == 100
    then codes "log"
    else codes "unknown"

-- Each reader below keeps the old value where the chunk is too short for its field.
unfoldable pub byte_or : ℕ → Bytes → ℕ
byte_or old [] = old
byte_or old (a ∷ _) = a

unfoldable pub uint16_or : ℕ → Bytes → ℕ
uint16_or old (a ∷ b ∷ _) = be16 a b
uint16_or old _ = old

unfoldable pub uint32_or : ℕ → Bytes → ℕ
uint32_or old (a ∷ b ∷ c ∷ d ∷ _) = be32 a b c d
uint32_or old _ = old

-- The capture agent id comes in four bytes or in two.
unfoldable pub node_id_or : ℕ → Bytes → ℕ
node_id_or old (a ∷ b ∷ c ∷ d ∷ _) = be32 a b c d
node_id_or old (a ∷ b ∷ _) = be16 a b
node_id_or old _ = old

unfoldable pub ipv4_or : Bytes → Bytes → Bytes
unfolding show
ipv4_or old (a ∷ b ∷ c ∷ d ∷ _) =
    show a ++ (b'.' ∷ (show b ++ (b'.' ∷ (show c ++ (b'.' ∷ show d)))))
ipv4_or old _ = old

groups : Bytes → List Bytes
unfolding show_hex
groups (a ∷ b ∷ s) = show_hex (be16 a b) ∷ groups s
groups _ = []

-- ipv6String, called with 16 bytes
unfoldable pub ipv6_string : Bytes → Bytes
unfolding groups join
ipv6_string b = join b':' (groups b)

unfoldable pub ipv6_or : Bytes → Bytes → Bytes
unfolding ipv6_string
ipv6_or old data_bytes =
    if leb 16 (length data_bytes) then ipv6_string (take 16 data_bytes) else old

-- `bytes.TrimRight(s, "\x00")`, on the reversed text
drop_nuls : Bytes → Bytes
drop_nuls [] = []
drop_nuls (c ∷ s) = let rest = drop_nuls s in if c == 0 then rest else c ∷ s

unfoldable pub trim_nuls : Bytes → Bytes
unfolding drop_nuls
trim_nuls s = reverse (drop_nuls (reverse s))

-- The switch on the chunk's type.
unfoldable pub apply_chunk : HepInfo → ℕ → Bytes → HepInfo
unfolding byte_or uint16_or uint32_or node_id_or ipv4_or ipv6_or trim_nuls
apply_chunk info kind data_bytes =
    if kind == 1
    then record info { ip_proto = byte_or info.ip_proto data_bytes }
    else if kind == 3
    then record info { src_ip = ipv4_or info.src_ip data_bytes }
    else if kind == 4
    then record info { dst_ip = ipv4_or info.dst_ip data_bytes }
    else if kind == 5
    then record info { src_ip = ipv6_or info.src_ip data_bytes }
    else if kind == 6
    then record info { dst_ip = ipv6_or info.dst_ip data_bytes }
    else if kind == 7
    then record info { src_port = uint16_or info.src_port data_bytes }
    else if kind == 8
    then record info { dst_port = uint16_or info.dst_port data_bytes }
    else if kind == 9
    then record info { t_sec = uint32_or info.t_sec data_bytes }
    else if kind == 10
    then record info { t_usec = uint32_or info.t_usec data_bytes }
    else if kind == 11
    then record info { proto_type = byte_or info.proto_type data_bytes }
    else if kind == 12
    then record info { node_id = node_id_or info.node_id data_bytes }
    else if kind == 14
    then record info { node_pw = data_bytes }
    else if kind == 15
    then record info { payload = data_bytes }
    else if kind == 17
    then record info { correlation_id = data_bytes }
    else if kind == 19
    then record info { node_name = trim_nuls data_bytes }
    else info

-- The chunk loop of hepDecode. The list is `pkt[offset:totalLen]`, so `offset+6 <= totalLen` is the
-- first pattern, and a chunk that does not fit ends the loop. Each round takes six bytes at least.
unfoldable pub chunks : ℕ → Bytes → HepInfo → HepInfo
chunks zero rest info = info
chunks (suc fuel) (v1 ∷ v2 ∷ t1 ∷ t2 ∷ l1 ∷ l2 ∷ more) info =
    let len = be16 l1 l2 in
    elim (ltb len 6 || ltb (length more + 6) len) [
      | true ↦ info
      | false ↦
          chunks fuel (drop (len - 6) more) (apply_chunk info (be16 t1 t2) (take (len - 6) more))
    ]
chunks (suc fuel) _ info = info

-- `info.OK = …`, `info.Version = 3`
abbrev pub finish : HepInfo → HepInfo
finish info = record info { ok = ltb 0 (length info.payload) || ltb 0 info.proto_type; version = 3 }

abbrev pub is_magic : ℕ → ℕ → ℕ → ℕ → Bool
is_magic a b c d = a == b'H' && b == b'E' && c == b'P' && d == b'3'

unfoldable pub hep_decode : Bytes → HepInfo
unfolding chunks apply_chunk
hep_decode (a ∷ b ∷ c ∷ d ∷ l1 ∷ l2 ∷ more) =
    let total = min (be16 l1 l2) (length more + 6) in
    if is_magic a b c d
    then finish (chunks (length more) (take (total - 6) more) no_info)
    else no_info
hep_decode _ = no_info
