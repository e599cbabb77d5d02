-- ===== src/Sip/Message.antt =====
-- The text of a SIP message, written independently of the parser, and what the parser reads of it.
pub mod Status
pub mod Fields
pub mod FirstLine
use zaman.Base.{
  ℕ, zero, suc, ◌+◌, ◌<◌, ◌≤◌, ◌≡◌, ◌≢◌, refl, sym, ap, ◌∙◌, Bool, true, false, ◌&&◌, ◌||◌, Option,
  none, some, List, [], ◌∷◌, ◌++◌, append_assoc, append-nil, if◌then◌else◌, All, All-append, arith,
  is_nil, length,
}
use zaman.Text.{Bytes, codes, cut, split, trim_space, to_lower}
use zaman.Text.Split.{Lacks, cut-append, cut-Lacks, split-append}
use zaman.Text.Trim.{IsTrimmed, plain, trim_space-IsTrimmed, trim_space_front, trim_space_cr}
use zaman.Sip.{SipInfo, first_line, header_of, set_header, header_line, headers, parse_sip}

pub record Header : Type 0 where
  pub name : Bytes
  pub value : Bytes

abbrev pub header_text : Header → Bytes
header_text h = h.name ++ b':' ∷ b' ' ∷ h.value

abbrev pub header_lines : List Header → Bytes → Bytes
header_lines [] rest = rest
header_lines (h ∷ hs) rest = (header_text h ++ b'\r' ∷ []) ++ b'\n' ∷ header_lines hs rest

-- The first line, the headers, an empty line, and the body.
abbrev pub render : Bytes → List Header → Bytes → Bytes
render line hs body = (line ++ b'\r' ∷ []) ++ b'\n' ∷ header_lines hs ((b'\r' ∷ []) ++ b'\n' ∷ body)

pub record IsHeader (h : Header) : Type 0 where
  pub name : IsTrimmed h.name
  pub no_colon : Lacks b':' h.name
  pub value : IsTrimmed h.value

-- The effect of the headers, in order.
abbrev pub set_headers : SipInfo → List Header → SipInfo
set_headers info [] = info
set_headers info (h ∷ hs) = set_headers (set_header info (to_lower h.name) h.value) hs

pub header_text-IsTrimmed : (h : Header) → IsHeader h → IsTrimmed (header_text h)
header_text-IsTrimmed h t = record {
  first = t.name.first;
  tail = t.name.tail ++ b':' ∷ b' ' ∷ h.value;
  starts = ap (λ n. n ++ b':' ∷ b' ' ∷ h.value) t.name.starts;
  first_plain = t.name.first_plain;
  init = h.name ++ b':' ∷ b' ' ∷ t.value.init;
  last = t.value.last;
  ends =
      ap (λ v. h.name ++ b':' ∷ b' ' ∷ v) t.value.ends
      ∙ sym (append_assoc h.name (b':' ∷ b' ' ∷ t.value.init) (t.value.last ∷ []));
  last_plain = t.value.last_plain;
  one_line =
      All-append _ h.name _ t.name.one_line
        (λ e. absurd (omega arith), (λ e. absurd (omega arith), t.value.one_line));
}

name_found :
    (first : ℕ) (name value : Bytes)
    → Lacks b':' (first ∷ name)
    → header_of (first ∷ name ++ b':' ∷ value) ≡ some (first ∷ name, value)
unfolding header_of
name_found first name value h = rw (cut-append b':' (first ∷ name) value h)

pub header_of-header_text :
    (h : Header) → IsHeader h → header_of (header_text h) ≡ some (h.name, b' ' ∷ h.value)
header_of-header_text h t =
    let e = t.name.starts in
    ap (λ n. header_of (n ++ b':' ∷ b' ' ∷ h.value)) e
    ∙ name_found t.name.first t.name.tail (b' ' ∷ h.value) (rw e at t.no_colon)
    ∙ ap (λ n. some (n, b' ' ∷ h.value)) (sym e)

header_line_found :
    (info : SipInfo) (line name value : Bytes)
    → header_of line ≡ some (name, value)
    → header_line info line ≡ set_header info (to_lower (trim_space name)) (trim_space value)
unfolding header_line
header_line_found info line name value e = rw (e, header_line)

header_line-header_text :
    (info : SipInfo) (h : Header)
    → IsHeader h
    → header_line info (header_text h) ≡ set_header info (to_lower h.name) h.value
header_line-header_text info h t =
    header_line_found info (header_text h) _ _ (header_of-header_text h t)
    ∙ rw (trim_space-IsTrimmed h.name t.name, trim_space_front h.value t.value)

headers_end : (info : SipInfo) (body : List Bytes) → headers info ((b'\r' ∷ []) ∷ body) ≡ info
unfolding headers trim_space
headers_end info body = refl

headers_cons :
    (info : SipInfo) (line raw : Bytes) (rest : List Bytes)
    → trim_space raw ≡ line
    → is_nil line ≡ false
    → headers info (raw ∷ rest) ≡ headers (header_line info line) rest
unfolding headers
headers_cons info line raw rest e h =
    rw (e, headers, h) (ap (λ l. headers (header_line info l) rest) e)

pub cr_one_line : (s : Bytes) → Lacks b'\n' s → Lacks b'\n' (s ++ b'\r' ∷ [])
cr_one_line s h = All-append _ s (b'\r' ∷ []) h ((λ e. absurd (omega arith)), tt)

headers-header_lines :
    (info : SipInfo) (hs : List Header) (body : Bytes)
    → All IsHeader hs
    → headers info (split b'\n' (header_lines hs ((b'\r' ∷ []) ++ b'\n' ∷ body)))
      ≡ set_headers info hs
headers-header_lines info [] body h =
    ap (headers info) (split-append b'\n' (b'\r' ∷ []) body ((λ e. absurd (omega arith)), tt))
    ∙ headers_end info (split b'\n' body)
headers-header_lines info (h ∷ hs) body (t, ts) =
    let text = header_text-IsTrimmed h t in
    let rest = header_lines hs ((b'\r' ∷ []) ++ b'\n' ∷ body) in
    ap (headers info) (
      split-append b'\n' (header_text h ++ b'\r' ∷ []) rest
        (cr_one_line (header_text h) text.one_line))
    ∙ headers_cons info (header_text h) _ (split b'\n' rest) (trim_space_cr (header_text h) text)
        (rw text.starts)
    ∙ ap (λ i. headers i (split b'\n' rest)) (header_line-header_text info h t)
    ∙ headers-header_lines (set_header info (to_lower h.name) h.value) hs body ts

parse_sip_lines :
    (msg first line rest : Bytes)
    → cut b'\n' msg ≡ (first, some rest)
    → trim_space first ≡ line
    → parse_sip msg ≡ headers (first_line line) (split b'\n' rest)
unfolding parse_sip
parse_sip_lines msg first line rest e h = rw (e, h)

-- The parser reads the first line of a message, and then its headers up to the empty line, each by
-- its name in lower case. The body is not read.
pub parse_sip-render :
    (line : Bytes) (hs : List Header) (body : Bytes)
    → IsTrimmed line
    → All IsHeader hs
    → parse_sip (render line hs body) ≡ set_headers (first_line line) hs
parse_sip-render line hs body t ts =
    parse_sip_lines _ _ line _
      (cut-append b'\n' (line ++ b'\r' ∷ []) _ (cr_one_line line t.one_line)) (trim_space_cr line t)
    ∙ headers-header_lines (first_line line) hs body ts
