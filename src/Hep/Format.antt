-- ===== src/Hep/Format.antt =====
-- The HEP3 wire format, written independently of the decoder: a packet is a header and a list of
-- chunks.
use zaman.Base.{ℕ, ◌+◌, ◌/◌, ◌%◌, List, [], ◌∷◌, ◌++◌, length}
use zaman.Text.{Bytes, codes}

pub record Chunk : Type 0 where
  pub vendor : ℕ
  pub kind : ℕ
  pub body : Bytes

abbrev pub put16 : ℕ → Bytes
put16 n = n / 256 ∷ n % 256 ∷ []

abbrev pub put32 : ℕ → Bytes
put32 n = n / 16777216 ∷ n / 65536 % 256 ∷ n / 256 % 256 ∷ n % 256 ∷ []

abbrev pub encode_chunk : Chunk → Bytes
encode_chunk c = put16 c.vendor ++ put16 c.kind ++ put16 (length c.body + 6) ++ c.body

abbrev pub encode_chunks : List Chunk → Bytes
encode_chunks [] = []
encode_chunks (c ∷ cs) = encode_chunk c ++ encode_chunks cs

abbrev pub encode : List Chunk → Bytes
encode cs = codes "HEP3" ++ put16 (length (encode_chunks cs) + 6) ++ encode_chunks cs
