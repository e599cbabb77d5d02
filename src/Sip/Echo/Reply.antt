-- ===== src/Sip/Echo/Reply.antt =====
-- The reply of buildEcho as parseSIP reads it.
use zaman.Base.{
  ℕ, ◌≡◌, refl, ◌∙◌, Bool, true, false, List, [], ◌∷◌, if◌then◌else◌, All, Bool-cases, inl, inr,
  some,
}
use zaman.Text.{Bytes, codes, equal, to_lower, trim_space, has_prefix, cut, trim_left}
use zaman.Text.Split.{Lacks}
use zaman.Text.Trim.{IsTrimmed}
use zaman.Text.Decimal.{pos, sscanf}
use zaman.Sip.{response, is_response, SipInfo, first_line, parse_sip}
use zaman.Sip.Message.{Header, IsHeader, render}
use zaman.Sip.Message.Fields.{Reads, parse_sip-Reads, last_value}
use zaman.Sip.Echo.{Copied, reply_text, build_echo}
use zaman.Sip.Echo.Request.{asked, is_asked, copy_headers-render}
use zaman.Sip.Echo.Render.{header, headers_after_via, reply_headers, reply_line, reply_text-render}
use zaman.Sip.Echo.Headers.{IsCopied, reply_line-IsTrimmed, reply_headers-All}

-- What a reply says of the request: its dialogue, and the status.
pub record IsReply (c : Copied) (method : Bytes) (r : SipInfo) : Type 0 where
  pub kind : r.kind ≡ response
  pub status : r.status ≡ pos (if equal method (codes "REGISTER") then 401 else 200)
  pub call_id : r.call_id ≡ c.call_id
  pub from : r.from ≡ c.from
  pub to : r.to ≡ c.to
  pub cseq : r.cseq ≡ c.cseq

reply_line_first :
    (method : Bytes)
    → ((first_line (reply_line method)).kind ≡ response)
      × ((first_line (reply_line method)).status
          ≡ pos (if equal method (codes "REGISTER") then 401 else 200))
unfolding first_line has_prefix cut sscanf trim_left
reply_line_first method = elim (Bool-cases (equal method (codes "REGISTER"))) [
  | inl e ↦ rw e (refl, refl)
  | inr e ↦ rw e (refl, refl)
]

Reads-IsReply :
    (c : Copied) (method local_host : Bytes) (port : ℕ) (options : Bool) (r : SipInfo)
    → Reads (first_line (reply_line method)) (reply_headers c options local_host port) r
    → IsReply c method r
unfolding last_value to_lower equal
Reads-IsReply c method local_host port true r h = record {
  kind = h.kind ∙ (reply_line_first method).0;
  status = h.status ∙ (reply_line_first method).1;
  call_id = h.call_id;
  from = h.from;
  to = h.to;
  cseq = h.cseq;
}
Reads-IsReply c method local_host port false r h = record {
  kind = h.kind ∙ (reply_line_first method).0;
  status = h.status ∙ (reply_line_first method).1;
  call_id = h.call_id;
  from = h.from;
  to = h.to;
  cseq = h.cseq;
}

reply_text-IsReply :
    (c : Copied) (method local_host : Bytes) (port : ℕ)
    → IsCopied c
    → Lacks b'\n' local_host
    → IsReply c method (parse_sip (reply_text c method local_host (pos port)))
reply_text-IsReply c method local_host port h host =
    let options = equal method (codes "OPTIONS") in
    let hs = reply_headers c options local_host port in
    rw (reply_text-render c method local_host port) (
      Reads-IsReply c method local_host port options _ (
        parse_sip-Reads (reply_line method) hs [] (reply_line-IsTrimmed method)
          (reply_headers-All c options local_host port h host)))

-- Of a request of any first line, headers and body a reply is made, and a client that reads it as
-- core-go reads SIP finds a response with status 200, or 401 for REGISTER, with the last Call-ID,
-- From, To and CSeq of the request, in long or compact form and in any case. The first header of the
-- reply is the first Via of the request. The request has these headers and a Via, none of them empty,
-- its first line up to a colon is not itself one of their names, and the listening host is one line.
pub build_echo-IsReply :
    (line : Bytes) (hs : List Header) (body local_host : Bytes) (port : ℕ)
    → IsTrimmed line
    → All IsHeader hs
    → is_response (first_line line).kind ≡ false
    → is_asked (to_lower (trim_space (cut b':' line).0)) ≡ false
    → IsCopied (asked hs)
    → Lacks b'\n' local_host
    → (reply : Bytes) × (build_echo (render line hs body) local_host (pos port) ≡ some reply)
      × ((status : Bytes) × (others : List Header) × (reply
            ≡ render status (header (codes "Via") (asked hs).via ∷ others) []))
      × IsReply (asked hs) (parse_sip (render line hs body)).method (parse_sip reply)
unfolding build_echo
build_echo-IsReply line hs body local_host port t ts kind other h host =
    let msg = render line hs body in
    let method = (parse_sip msg).method in
    (
      reply_text (asked hs) method local_host (pos port),
      rw (
        (parse_sip-Reads line hs body t ts).kind,
        kind,
        copy_headers-render line hs body t other ts,
      ),
      (
        reply_line method,
        headers_after_via (asked hs) (equal method (codes "OPTIONS")) local_host port,
        reply_text-render (asked hs) method local_host port,
      ),
      reply_text-IsReply (asked hs) method local_host port h host,
    )
