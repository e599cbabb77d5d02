-- ===== src/Hep/Packet.antt =====
-- The packets that a capture agent sends, field by field.
use zaman.Base.{ℕ, ◌+◌, ◌/◌, ◌%◌, ◌^◌, ◌<◌, ◌≡◌, ◌∙◌, ◌||◌, List, [], ◌∷◌, ◌++◌, ltb, arith, length}
use zaman.Text.{Bytes}
use zaman.Hep.{HepInfo, no_info, be16, be32, apply_chunk, finish, hep_decode, trim_nuls, ipv4_or}
use zaman.Hep.Format.{Chunk, put16, put32, encode_chunks, encode}
use zaman.Hep.Decode.{apply_chunks, hep_decode-encode}

pub record Address : Type 0 where
  pub a : ℕ
  pub b : ℕ
  pub c : ℕ
  pub d : ℕ

pub record Packet : Type 0 where
  pub ip_proto : ℕ
  pub src : Address
  pub dst : Address
  pub src_port : ℕ
  pub dst_port : ℕ
  pub t_sec : ℕ
  pub t_usec : ℕ
  pub proto_type : ℕ
  pub node_id : ℕ
  pub node_pw : Bytes
  pub correlation_id : Bytes
  pub node_name : Bytes
  pub payload : Bytes

abbrev chunk : ℕ → Bytes → Chunk
chunk kind body = record { vendor = 0; kind = kind; body = body }

abbrev address : Address → Bytes
address x = x.a ∷ x.b ∷ x.c ∷ x.d ∷ []

abbrev pub dotted : Address → Bytes
dotted x = ipv4_or [] (address x)

abbrev pub chunks_of : Packet → List Chunk
chunks_of p =
    chunk 1 (p.ip_proto ∷ [])
    ∷ chunk 2 (17 ∷ [])
    ∷ chunk 3 (address p.src)
    ∷ chunk 4 (address p.dst)
    ∷ chunk 7 (put16 p.src_port)
    ∷ chunk 8 (put16 p.dst_port)
    ∷ chunk 9 (put32 p.t_sec)
    ∷ chunk 10 (put32 p.t_usec)
    ∷ chunk 11 (p.proto_type ∷ [])
    ∷ chunk 12 (put32 p.node_id)
    ∷ chunk 14 p.node_pw
    ∷ chunk 17 p.correlation_id
    ∷ chunk 19 p.node_name
    ∷ chunk 15 p.payload
    ∷ []

-- The numbers fit their fields, and the packet its length field.
pub record Fits (p : Packet) : Type 0 where
  pub src_port : p.src_port < 2 ^ 16
  pub dst_port : p.dst_port < 2 ^ 16
  pub t_sec : p.t_sec < 2 ^ 32
  pub t_usec : p.t_usec < 2 ^ 32
  pub node_id : p.node_id < 2 ^ 32
  pub size : length (encode_chunks (chunks_of p)) + 6 < 2 ^ 16

abbrev pub info_of : Packet → HepInfo
info_of p = record {
  ok = ltb 0 (length p.payload) || ltb 0 p.proto_type;
  version = 3;
  ip_proto = p.ip_proto;
  src_ip = dotted p.src;
  dst_ip = dotted p.dst;
  src_port = p.src_port;
  dst_port = p.dst_port;
  t_sec = p.t_sec;
  t_usec = p.t_usec;
  proto_type = p.proto_type;
  node_id = p.node_id;
  node_pw = p.node_pw;
  node_name = trim_nuls p.node_name;
  correlation_id = p.correlation_id;
  payload = p.payload;
}

put16_lem : (n : ℕ) → n < 2 ^ 16 → be16 (n / 256) (n % 256) ≡ n
put16_lem n h = omega arith

put32_lem :
    (n : ℕ) → n < 2 ^ 32 → be32 (n / 16777216) (n / 65536 % 256) (n / 256 % 256) (n % 256) ≡ n
put32_lem n h = omega arith

apply_chunks-chunks_of :
    (p : Packet) → Fits p → finish (apply_chunks no_info (chunks_of p)) ≡ info_of p
unfolding apply_chunk
apply_chunks-chunks_of p f = rw (
  put16_lem p.src_port f.src_port,
  put16_lem p.dst_port f.dst_port,
  put32_lem p.t_sec f.t_sec,
  put32_lem p.t_usec f.t_usec,
  put32_lem p.node_id f.node_id,
)

-- The packet that carries the fields of `p` is decoded to just these fields, the padding of the
-- agent's name taken off.
pub hep_decode_fields : (p : Packet) → Fits p → hep_decode (encode (chunks_of p) ++ []) ≡ info_of p
hep_decode_fields p f =
    hep_decode-encode (chunks_of p) [] (omega arith) f.size ∙ apply_chunks-chunks_of p f
