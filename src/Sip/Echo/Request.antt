-- ===== src/Sip/Echo/Request.antt =====
-- What buildEcho copies of a request, said of the headers of its rendering.
use zaman.Base.{
  ◌||◌, Option, none, ◌≡◌, refl, ap, ◌∙◌, Bool, false, ◌&&◌, List, [], ◌∷◌, ◌++◌, if◌then◌else◌,
  is_nil, All, arith, some,
}
use zaman.Text.{Bytes, codes, cut, split, trim_space, to_lower}
use zaman.Text.Split.{split-append, equal_iff}
use zaman.Text.Trim.{IsTrimmed, trim_space-IsTrimmed, trim_space_front, trim_space_cr}
use zaman.Sip.{header_of, name_and_value}
use zaman.Sip.Message.{
  Header, IsHeader, header_text, header_lines, render, header_text-IsTrimmed, header_of-header_text,
  cr_one_line,
}
use zaman.Sip.Message.Fields.{last_value, named, is_call_id, is_from, is_to, is_cseq}
use zaman.Sip.Echo.{Copied, nothing_copied, copy_header, copy_line, copy_headers}

abbrev pub is_via : Bytes → Bool
is_via = named (codes "via") (codes "v")

-- `old`, or where that is empty the value of the first header whose name passes the test and that
-- has one.
unfoldable pub first_value : (Bytes → Bool) → Bytes → List Header → Bytes
first_value test old [] = old
first_value test old (h ∷ hs) =
    first_value test (if test (to_lower h.name) && is_nil old then h.value else old) hs

abbrev pub asked_from : Copied → List Header → Copied
unfolding first_value last_value
asked_from c hs = record {
  via = first_value is_via c.via hs;
  from = last_value is_from c.from hs;
  to = last_value is_to c.to hs;
  call_id = last_value is_call_id c.call_id hs;
  cseq = last_value is_cseq c.cseq hs;
}

-- The first Via of a request, and its last From, To, Call-ID and CSeq.
abbrev pub asked : List Header → Copied
asked hs = asked_from nothing_copied hs

record Copies (c : Copied) (name value : Bytes) : Type 0 where
  via : (copy_header c name value).via ≡ (if is_via name && is_nil c.via then value else c.via)
  from : (copy_header c name value).from ≡ (if is_from name then value else c.from)
  to : (copy_header c name value).to ≡ (if is_to name then value else c.to)
  call_id : (copy_header c name value).call_id ≡ (if is_call_id name then value else c.call_id)
  cseq : (copy_header c name value).cseq ≡ (if is_cseq name then value else c.cseq)

copy_header-Copies : (c : Copied) (name value : Bytes) → Copies c name value
unfolding copy_header
copy_header-Copies c name value = ground (
  arith,
  equal_iff name (codes "via"),
  equal_iff name (codes "v"),
  equal_iff name (codes "call-id"),
  equal_iff name (codes "i"),
  equal_iff name (codes "from"),
  equal_iff name (codes "f"),
  equal_iff name (codes "to"),
  equal_iff name (codes "t"),
  equal_iff name (codes "cseq"),
)

copy_headers_end : (c : Copied) (body : List Bytes) → copy_headers c ((b'\r' ∷ []) ∷ body) ≡ c
unfolding copy_headers trim_space
copy_headers_end c body = refl

copy_headers_cons :
    (c : Copied) (line raw : Bytes) (rest : List Bytes)
    → trim_space raw ≡ line
    → is_nil line ≡ false
    → copy_headers c (raw ∷ rest) ≡ copy_headers (copy_line c line) rest
unfolding copy_headers
copy_headers_cons c line raw rest e h =
    rw (e, copy_headers, h) (ap (λ l. copy_headers (copy_line c l) rest) e)

copy_line_found :
    (c : Copied) (line name value : Bytes)
    → header_of line ≡ some (name, value)
    → copy_line c line ≡ copy_header c (to_lower (trim_space name)) (trim_space value)
unfolding copy_line
copy_line_found c line name value e = rw (e, copy_line)

copy_line-header_text :
    (c : Copied) (h : Header)
    → IsHeader h
    → copy_line c (header_text h) ≡ copy_header c (to_lower h.name) h.value
copy_line-header_text c h t =
    copy_line_found c (header_text h) _ _ (header_of-header_text h t)
    ∙ rw (trim_space-IsTrimmed h.name t.name, trim_space_front h.value t.value)

asked_from_cons :
    (c : Copied) (h : Header) (hs : List Header)
    → asked_from (copy_header c (to_lower h.name) h.value) hs ≡ asked_from c (h ∷ hs)
unfolding first_value last_value
asked_from_cons c h hs =
    let s = copy_header-Copies c (to_lower h.name) h.value in
    rw (s.via, s.from, s.to, s.call_id, s.cseq)

copy_headers-header_lines :
    (c : Copied) (hs : List Header) (body : Bytes)
    → All IsHeader hs
    → copy_headers c (split b'\n' (header_lines hs ((b'\r' ∷ []) ++ b'\n' ∷ body)))
      ≡ asked_from c hs
unfolding first_value last_value
copy_headers-header_lines c [] body h =
    ap (copy_headers c) (split-append b'\n' (b'\r' ∷ []) body ((λ e. absurd (omega arith)), tt))
    ∙ copy_headers_end c (split b'\n' body)
copy_headers-header_lines c (h ∷ hs) body (t, ts) =
    let text = header_text-IsTrimmed h t in
    let rest = header_lines hs ((b'\r' ∷ []) ++ b'\n' ∷ body) in
    ap (copy_headers c) (
      split-append b'\n' (header_text h ++ b'\r' ∷ []) rest
        (cr_one_line (header_text h) text.one_line))
    ∙ copy_headers_cons c (header_text h) _ (split b'\n' rest) (trim_space_cr (header_text h) text)
        (rw text.starts)
    ∙ ap (λ d. copy_headers d (split b'\n' rest)) (copy_line-header_text c h t)
    ∙ copy_headers-header_lines (copy_header c (to_lower h.name) h.value) hs body ts
    ∙ asked_from_cons c h hs

-- Is it the name of a header that is copied.
abbrev pub is_asked : Bytes → Bool
is_asked name = is_via name || is_from name || is_to name || is_call_id name || is_cseq name

copy_header-other :
    (c : Copied) (name value : Bytes) → is_asked name ≡ false → copy_header c name value ≡ c
unfolding copy_header
copy_header-other c name value h = ground (arith, h)

name_and_value-other :
    (c : Copied) (parts : Bytes × Option Bytes)
    → is_asked (to_lower (trim_space parts.0)) ≡ false
    → elim (name_and_value parts) [
      | none ↦ c
      | some (name, value) ↦ copy_header c (to_lower (trim_space name)) (trim_space value)
    ]
      ≡ c
unfolding name_and_value
name_and_value-other c (name, none) h = refl
name_and_value-other c ([], some value) h = refl
name_and_value-other c (x ∷ name, some value) h =
    copy_header-other c (to_lower (trim_space (x ∷ name))) (trim_space value) h

copy_line-other :
    (c : Copied) (line : Bytes)
    → is_asked (to_lower (trim_space (cut b':' line).0)) ≡ false
    → copy_line c line ≡ c
unfolding copy_line header_of
copy_line-other c line h = name_and_value-other c (cut b':' line) h

-- The lines of a request, the first one included, which buildEcho reads like a header.
pub copy_headers-render :
    (line : Bytes) (hs : List Header) (body : Bytes)
    → IsTrimmed line
    → is_asked (to_lower (trim_space (cut b':' line).0)) ≡ false
    → All IsHeader hs
    → copy_headers nothing_copied (split b'\n' (render line hs body)) ≡ asked hs
copy_headers-render line hs body t other ts =
    ap (copy_headers nothing_copied)
      (split-append b'\n' (line ++ b'\r' ∷ []) _ (cr_one_line line t.one_line))
    ∙ copy_headers_cons nothing_copied line _ _ (trim_space_cr line t) (rw t.starts)
    ∙ ap (λ d. copy_headers d (split b'\n' (header_lines hs ((b'\r' ∷ []) ++ b'\n' ∷ body))))
        (copy_line-other nothing_copied line other)
    ∙ copy_headers-header_lines nothing_copied hs body ts
