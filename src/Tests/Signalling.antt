-- ===== src/Tests/Signalling.antt =====
-- SIP messages, the redaction of credentials, and JSON text.
use zaman.Base.{List, All, some, false, ◌≡◌, refl, [], ◌∷◌, ◌++◌, arith}
use zaman.Text.{Bytes, codes, split, to_lower, trim_space, cut, equal, has_prefix}
use zaman.Text.Decimal.{pos}
use zaman.Text.Trim.{IsTrimmed}
use zaman.Sip.{first_line, parse_sip}
use zaman.Sip.{is_response}
use zaman.Sip.Echo.{build_echo}
use zaman.Sip.Echo.Render.{header}
use zaman.Sip.Echo.Request.{asked, is_asked, first_value}
use zaman.Sip.Echo.Headers.{trimmed, IsCopied}
use zaman.Sip.Echo.Reply.{IsReply, build_echo-IsReply}
use zaman.Sip.Message.{Header, IsHeader, render, set_headers, parse_sip-render}
use zaman.Sip.Message.Fields.{last_value}
use zaman.Sip.Redact.{redact_sip}
use zaman.Sip.Redact.Laws.{kept_lines, split-redact_sip}

abbrev options_line : Bytes
options_line = codes "OPTIONS sip:a@b SIP/2.0"

options_line-IsTrimmed : IsTrimmed options_line
options_line-IsTrimmed = record {
  first = b'O';
  tail = codes "PTIONS sip:a@b SIP/2.0";
  starts = refl;
  first_plain = refl;
  init = codes "OPTIONS sip:a@b SIP/2.";
  last = b'0';
  ends = refl;
  last_plain = refl;
  one_line = ground arith;
}

abbrev call_id : Header
call_id = record { name = codes "i"; value = codes "77@host" }

abbrev cseq : Header
cseq = record { name = codes "CSeq"; value = codes "1 OPTIONS" }

call_id-IsHeader : IsHeader call_id
call_id-IsHeader = record {
  name = record {
    first = b'i';
    tail = [];
    starts = refl;
    first_plain = refl;
    init = [];
    last = b'i';
    ends = refl;
    last_plain = refl;
    one_line = ground arith;
  };
  no_colon = ground arith;
  value = record {
    first = b'7';
    tail = codes "7@host";
    starts = refl;
    first_plain = refl;
    init = codes "77@hos";
    last = b't';
    ends = refl;
    last_plain = refl;
    one_line = ground arith;
  };
}

cseq-IsHeader : IsHeader cseq
cseq-IsHeader = record {
  name = record {
    first = b'C';
    tail = codes "Seq";
    starts = refl;
    first_plain = refl;
    init = codes "CSe";
    last = b'q';
    ends = refl;
    last_plain = refl;
    one_line = ground arith;
  };
  no_colon = ground arith;
  value = record {
    first = b'1';
    tail = codes " OPTIONS";
    starts = refl;
    first_plain = refl;
    init = codes "1 OPTION";
    last = b'S';
    ends = refl;
    last_plain = refl;
    one_line = ground arith;
  };
}

parse_sip-render_example :
    parse_sip (render options_line (call_id ∷ cseq ∷ []) (codes "v=0"))
    ≡ set_headers (first_line options_line) (call_id ∷ cseq ∷ [])
parse_sip-render_example =
    parse_sip-render options_line (call_id ∷ cseq ∷ []) (codes "v=0") options_line-IsTrimmed
      (call_id-IsHeader, (cseq-IsHeader, tt))

abbrev with_credentials : Bytes
with_credentials =
    codes "REGISTER sip:a SIP/2.0"
    ++ b'\n' ∷ codes "authorization: Digest x"
    ++ b'\n' ∷ codes "To: b"

split-redact_sip_example :
    split b'\n' (redact_sip with_credentials) ≡ kept_lines (split b'\n' with_credentials) ++ [] ∷ []
split-redact_sip_example = split-redact_sip with_credentials

abbrev via : Header
via = record { name = codes "Via"; value = codes "SIP/2.0/UDP h" }

abbrev from : Header
from = record { name = codes "F"; value = codes "<sip:a>" }

abbrev to : Header
to = record { name = codes "To"; value = codes "<sip:b>" }

abbrev options_headers : List Header
options_headers = via ∷ from ∷ to ∷ call_id ∷ cseq ∷ []

options_headers-All : All IsHeader options_headers
options_headers-All = (
  record {
    name = trimmed b'V' b'a' (codes "i") refl refl (ground arith);
    no_colon = ground arith;
    value = trimmed b'S' b'h' (codes "IP/2.0/UDP ") refl refl (ground arith);
  },
  (
    record {
      name = record {
        first = b'F';
        tail = [];
        starts = refl;
        first_plain = refl;
        init = [];
        last = b'F';
        ends = refl;
        last_plain = refl;
        one_line = ground arith;
      };
      no_colon = ground arith;
      value = trimmed b'<' b'>' (codes "sip:a") refl refl (ground arith);
    },
    (
      record {
        name = trimmed b'T' b'o' [] refl refl (ground arith);
        no_colon = ground arith;
        value = trimmed b'<' b'>' (codes "sip:b") refl refl (ground arith);
      },
      (call_id-IsHeader, (cseq-IsHeader, tt)),
    ),
  ),
)

asked-IsCopied : IsCopied (asked options_headers)
unfolding first_value last_value to_lower equal
asked-IsCopied = record {
  via = trimmed b'S' b'h' (codes "IP/2.0/UDP ") refl refl (ground arith);
  from = trimmed b'<' b'>' (codes "sip:a") refl refl (ground arith);
  to = trimmed b'<' b'>' (codes "sip:b") refl refl (ground arith);
  call_id = call_id-IsHeader.value;
  cseq = cseq-IsHeader.value;
}

options_kind : is_response (first_line options_line).kind ≡ false
unfolding first_line split to_lower trim_space cut equal has_prefix
options_kind = refl

options_other : is_asked (to_lower (trim_space (cut b':' options_line).0)) ≡ false
unfolding to_lower trim_space cut equal
options_other = refl

build_echo-IsReply_example :
    (reply : Bytes) × (build_echo
        (render options_line options_headers [])
        (codes "0.0.0.0")
        (pos 5060)
      ≡ some reply)
    × ((status : Bytes) × (others : List Header) × (reply
          ≡ render status (header (codes "Via") (asked options_headers).via ∷ others) []))
    × IsReply
        (asked options_headers)
        (parse_sip (render options_line options_headers [])).method
        (parse_sip reply)
build_echo-IsReply_example =
    build_echo-IsReply options_line options_headers [] (codes "0.0.0.0") 5060 options_line-IsTrimmed
      options_headers-All options_kind options_other asked-IsCopied (ground arith)
