-- ===== src/Sip/Sdp.antt =====
-- sdpExtract of core-go/sip.go: what a message says of its media.
use zaman.Base.{
  ◌≡◌, refl, Bool, true, false, ◌||◌, Option, none, some, List, [], ◌∷◌, ◌++◌, if◌then◌else◌,
}
use zaman.Text.{Bytes, codes, has_prefix, contains, cut, split, trim_space, fields}
use zaman.Text.Decimal.{ℤ, pos, sscanf}

pub record Sdp : Type 0 where
  pub codecs : List Bytes
  pub media_port : ℤ
  pub srtp : Bool

abbrev pub no_sdp : Sdp
no_sdp = record { codecs = []; media_port = pos 0; srtp = false }

-- `s[strings.Index(s, p):]`, none where the index is below 0
unfoldable pub from_first : Bytes → Bytes → Option Bytes
unfolding has_prefix
from_first [] p = none
from_first (c ∷ s) p = if has_prefix (c ∷ s) p then some (c ∷ s) else from_first s p

-- `msg[idx:]`, from the empty line on
unfoldable pub body_of : Bytes → Option Bytes
unfolding from_first
body_of msg = elim (from_first msg (codes "\r\n\r\n")) [
  | some body ↦ some body
  | none ↦ from_first msg (codes "\n\n")
]

-- The port of `m=audio port …`, left alone where there are fewer than three fields or no number.
unfoldable pub audio_port : List Bytes → ℤ → ℤ
unfolding sscanf
audio_port (m ∷ port ∷ proto ∷ _) old = elim (sscanf port) [ none ↦ old | some n ↦ n ]
audio_port _ old = old

-- The codec of `a=rtpmap:0 PCMU/8000`
unfoldable pub add_codec : Option Bytes → List Bytes → List Bytes
unfolding cut
add_codec none codecs = codecs
add_codec (some rest) codecs = codecs ++ (cut b'/' rest).0 ∷ []

-- The body of the loop, for a line that is trimmed.
unfoldable pub sdp_line : Bytes → Sdp → Sdp
unfolding has_prefix contains audio_port fields add_codec cut
sdp_line line d = record {
  codecs =
      if has_prefix line (codes "a=rtpmap:")
      then add_codec (cut b' ' line).1 d.codecs
      else d.codecs;
  media_port =
      if has_prefix line (codes "m=audio ")
      then audio_port (fields line) d.media_port
      else d.media_port;
  srtp =
      d.srtp
      || (if has_prefix line (codes "m=audio ")
          then contains line (codes "SAVP") || contains line (codes "savp")
          else false)
      || has_prefix line (codes "a=crypto:");
}

unfoldable pub sdp_lines : List Bytes → Sdp → Sdp
unfolding sdp_line trim_space
sdp_lines [] d = d
sdp_lines (line ∷ lines) d = sdp_lines lines (sdp_line (trim_space line) d)

unfoldable pub sdp_extract : Bytes → Sdp
unfolding body_of sdp_lines split
sdp_extract msg = elim (body_of msg) [
  | none ↦ no_sdp
  | some body ↦ sdp_lines (split b'\n' body) no_sdp
]

sdp_extract_test :
    sdp_extract (codes "OK\r\n\r\nm=audio 4000 RTP/SAVP 0\r\na=rtpmap:0 PCMU/8000\r\n")
    ≡ record { codecs = codes "PCMU" ∷ []; media_port = pos 4000; srtp = true }
unfolding sdp_extract
sdp_extract_test = refl
