-- ===== src/Sip/Echo/Headers.antt =====
-- The status line and the headers of a reply are well formed.
use zaman.Base.{
  ℕ, ◌≡◌, ◌≢◌, refl, sym, ap, Bool, true, false, [], ◌∷◌, ◌++◌, append_assoc, All, All-append,
  All-weaken, arith, Bool-cases, inl, inr,
}
use zaman.Text.{Bytes, codes, equal}
use zaman.Text.Split.{Lacks}
use zaman.Text.Trim.{IsTrimmed, plain}
use zaman.Text.Decimal.{show, is_digit}
use zaman.Text.Decimal.RoundTrip.{show-All-digit}
use zaman.Sip.Message.{IsHeader}
use zaman.Sip.Echo.{Copied}
use zaman.Sip.Echo.Render.{header, contact_value, last_headers, reply_headers, reply_line}

show-Lacks_newline : (n : ℕ) → Lacks b'\n' (show n)
show-Lacks_newline n =
    All-weaken (λ c. is_digit c ≡ true) (λ c. c ≢ b'\n') (λ c h. ground (arith, h)) (show n)
      (show-All-digit n)

contact_value-IsTrimmed :
    (local_host : Bytes) (port : ℕ)
    → Lacks b'\n' local_host
    → IsTrimmed (contact_value local_host port)
contact_value-IsTrimmed local_host port h = record {
  first = b'<';
  tail = codes "sip:" ++ (local_host ++ b':' ∷ (show port ++ codes ">"));
  starts = refl;
  first_plain = refl;
  init = codes "<sip:" ++ (local_host ++ b':' ∷ show port);
  last = b'>';
  ends =
      ap (λ s. codes "<sip:" ++ s) (sym (append_assoc local_host (b':' ∷ show port) (codes ">")));
  last_plain = refl;
  one_line = ground (
    arith,
    All-append (λ c. c ≢ b'\n') local_host (b':' ∷ (show port ++ codes ">")) h
        (
          omega arith,
          All-append (λ c. c ≢ b'\n') (show port) (codes ">") (show-Lacks_newline port)
              (ground arith),
        ),
  );
}

pub trimmed :
    (first last : ℕ) (middle : Bytes)
    → plain first ≡ true
    → plain last ≡ true
    → Lacks b'\n' (first ∷ (middle ++ last ∷ []))
    → IsTrimmed (first ∷ (middle ++ last ∷ []))
trimmed first last middle hf hl h = record {
  first = first;
  tail = middle ++ last ∷ [];
  starts = refl;
  first_plain = hf;
  init = first ∷ middle;
  last = last;
  ends = refl;
  last_plain = hl;
  one_line = h;
}

trimmed_one : (c : ℕ) → plain c ≡ true → c ≢ b'\n' → IsTrimmed (c ∷ [])
trimmed_one c hc h = record {
  first = c;
  tail = [];
  starts = refl;
  first_plain = hc;
  init = [];
  last = c;
  ends = refl;
  last_plain = hc;
  one_line = (h, tt);
}

pub reply_line-IsTrimmed : (method : Bytes) → IsTrimmed (reply_line method)
reply_line-IsTrimmed method = elim (Bool-cases (equal method (codes "REGISTER"))) [
  | inl e ↦ rw e (trimmed b'S' b'd' (codes "IP/2.0 401 Unauthorize") refl refl (ground arith))
  | inr e ↦ rw e (trimmed b'S' b'K' (codes "IP/2.0 200 O") refl refl (ground arith))
]

length_header : IsHeader (header (codes "Content-Length") (codes "0"))
length_header = record {
  name = trimmed b'C' b'h' (codes "ontent-Lengt") refl refl (ground arith);
  no_colon = ground arith;
  value = trimmed_one b'0' refl (ground arith);
}

last_headers-All : (options : Bool) → All IsHeader (last_headers options)
last_headers-All true = (
  record {
    name = trimmed b'A' b'w' (codes "llo") refl refl (ground arith);
    no_colon = ground arith;
    value =
        trimmed b'I' b'O' (codes "NVITE,ACK,BYE,CANCEL,OPTIONS,REGISTER,INF") refl refl
          (ground arith);
  },
  (length_header, tt),
)
last_headers-All false = (length_header, tt)

-- The headers that a reply copies are there, and were trimmed.
pub record IsCopied (c : Copied) : Type 0 where
  pub via : IsTrimmed c.via
  pub from : IsTrimmed c.from
  pub to : IsTrimmed c.to
  pub call_id : IsTrimmed c.call_id
  pub cseq : IsTrimmed c.cseq

pub reply_headers-All :
    (c : Copied) (options : Bool) (local_host : Bytes) (port : ℕ)
    → IsCopied c
    → Lacks b'\n' local_host
    → All IsHeader (reply_headers c options local_host port)
reply_headers-All c options local_host port h host = (
  record {
    name = trimmed b'V' b'a' (codes "i") refl refl (ground arith);
    no_colon = ground arith;
    value = h.via;
  },
  (
    record {
      name = trimmed b'F' b'm' (codes "ro") refl refl (ground arith);
      no_colon = ground arith;
      value = h.from;
    },
    (
      record {
        name = trimmed b'T' b'o' [] refl refl (ground arith);
        no_colon = ground arith;
        value = h.to;
      },
      (
        record {
          name = trimmed b'C' b'D' (codes "all-I") refl refl (ground arith);
          no_colon = ground arith;
          value = h.call_id;
        },
        (
          record {
            name = trimmed b'C' b'q' (codes "Se") refl refl (ground arith);
            no_colon = ground arith;
            value = h.cseq;
          },
          (
            record {
              name = trimmed b'C' b't' (codes "ontac") refl refl (ground arith);
              no_colon = ground arith;
              value = contact_value-IsTrimmed local_host port host;
            },
            (
              record {
                name = trimmed b'S' b'r' (codes "erve") refl refl (ground arith);
                no_colon = ground arith;
                value = trimmed b'Z' b'0' (codes "aman/0.4.") refl refl (ground arith);
              },
              last_headers-All options,
            ),
          ),
        ),
      ),
    ),
  ),
)
