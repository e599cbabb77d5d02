-- ===== src/Sip/Message/Fields.antt =====
-- The fields that the parser takes from the headers: the last header of a name counts.
use zaman.Base.{◌≡◌, refl, Bool, ◌||◌, List, [], ◌∷◌, ◌∙◌, if◌then◌else◌, arith, All}
use zaman.Text.{Bytes, codes, equal, to_lower}
use zaman.Text.Trim.{IsTrimmed}
use zaman.Text.Split.{equal_iff}
use zaman.Sip.{SipInfo, first_line, set_header, parse_sip}
use zaman.Sip.Message.{Header, IsHeader, set_headers, render, parse_sip-render}

-- The value of the last header whose name passes the test, or `old` if none does.
unfoldable pub last_value : (Bytes → Bool) → Bytes → List Header → Bytes
last_value test old [] = old
last_value test old (h ∷ hs) = last_value test (if test (to_lower h.name) then h.value else old) hs

abbrev pub named : Bytes → Bytes → Bytes → Bool
named long short name = equal name long || equal name short

abbrev pub is_call_id : Bytes → Bool
is_call_id = named (codes "call-id") (codes "i")

abbrev pub is_from : Bytes → Bool
is_from = named (codes "from") (codes "f")

abbrev pub is_to : Bytes → Bool
is_to = named (codes "to") (codes "t")

abbrev pub is_cseq : Bytes → Bool
is_cseq name = equal name (codes "cseq")

record Sets (info : SipInfo) (name value : Bytes) : Type 0 where
  call_id : (set_header info name value).call_id ≡ (if is_call_id name then value else info.call_id)
  from : (set_header info name value).from ≡ (if is_from name then value else info.from)
  to : (set_header info name value).to ≡ (if is_to name then value else info.to)
  cseq : (set_header info name value).cseq ≡ (if is_cseq name then value else info.cseq)
  status : (set_header info name value).status ≡ info.status
  ruri : (set_header info name value).ruri ≡ info.ruri
  kind : (set_header info name value).kind ≡ info.kind

set_header-Sets : (info : SipInfo) (name value : Bytes) → Sets info name value
unfolding set_header
set_header-Sets info name value = ground (
  arith,
  equal_iff name (codes "call-id"),
  equal_iff name (codes "i"),
  equal_iff name (codes "from"),
  equal_iff name (codes "f"),
  equal_iff name (codes "to"),
  equal_iff name (codes "t"),
  equal_iff name (codes "cseq"),
)

-- `r` holds the values of the headers, and what the first line said in `info`.
pub record Reads (info : SipInfo) (hs : List Header) (r : SipInfo) : Type 0 where
  pub call_id : r.call_id ≡ last_value is_call_id info.call_id hs
  pub from : r.from ≡ last_value is_from info.from hs
  pub to : r.to ≡ last_value is_to info.to hs
  pub cseq : r.cseq ≡ last_value is_cseq info.cseq hs
  pub status : r.status ≡ info.status
  pub ruri : r.ruri ≡ info.ruri
  pub kind : r.kind ≡ info.kind

set_headers-Reads : (info : SipInfo) (hs : List Header) → Reads info hs (set_headers info hs)
unfolding last_value
set_headers-Reads info [] = record {
  call_id = refl;
  from = refl;
  to = refl;
  cseq = refl;
  status = refl;
  ruri = refl;
  kind = refl;
}
set_headers-Reads info (h ∷ hs) =
    let name = to_lower h.name in
    let s = set_header-Sets info name h.value in
    let r = set_headers-Reads (set_header info name h.value) hs in
    record {
      call_id = r.call_id ∙ rw s.call_id;
      from = r.from ∙ rw s.from;
      to = r.to ∙ rw s.to;
      cseq = r.cseq ∙ rw s.cseq;
      status = r.status ∙ s.status;
      ruri = r.ruri ∙ s.ruri;
      kind = r.kind ∙ s.kind;
    }

pub parse_sip-Reads :
    (line : Bytes) (hs : List Header) (body : Bytes)
    → IsTrimmed line
    → All IsHeader hs
    → Reads (first_line line) hs (parse_sip (render line hs body))
parse_sip-Reads line hs body t ts =
    rw (parse_sip-render line hs body t ts) (set_headers-Reads (first_line line) hs)
