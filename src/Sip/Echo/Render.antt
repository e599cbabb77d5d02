-- ===== src/Sip/Echo/Render.antt =====
-- The reply of buildEcho as a status line and a list of headers.
use zaman.Base.{
  ℕ, ◌≡◌, refl, sym, ap, ◌∙◌, Bool, true, false, List, [], ◌∷◌, ◌++◌, append_assoc, Bool-cases, inl,
  inr,
}
use zaman.Text.{Bytes, codes, equal}
use zaman.Text.Decimal.{pos, show, show_ℤ}
use zaman.Sip.Message.{Header, header_text, header_lines, render}
use zaman.Sip.Echo.{Copied, version, lines_text, status_of, reply_lines, reply_text}

texts_of : List Header → List Bytes
texts_of [] = [] ∷ []
texts_of (h ∷ hs) = header_text h ∷ texts_of hs

lines_text-texts_of :
    (hs : List Header) → lines_text (texts_of hs) ≡ header_lines hs (b'\r' ∷ b'\n' ∷ [])
unfolding lines_text texts_of
lines_text-texts_of [] = refl
lines_text-texts_of (h ∷ hs) =
    ap (λ rest. header_text h ++ b'\r' ∷ b'\n' ∷ rest) (lines_text-texts_of hs)
    ∙ sym (append_assoc (header_text h) (b'\r' ∷ []) (b'\n' ∷ header_lines hs (b'\r' ∷ b'\n' ∷ [])))

abbrev pub header : Bytes → Bytes → Header
header name value = record { name = name; value = value }

abbrev pub contact_value : Bytes → ℕ → Bytes
contact_value local_host port = codes "<sip:" ++ (local_host ++ b':' ∷ (show port ++ codes ">"))

abbrev pub last_headers : Bool → List Header
last_headers true =
    header (codes "Allow") (codes "INVITE,ACK,BYE,CANCEL,OPTIONS,REGISTER,INFO")
    ∷ header (codes "Content-Length") (codes "0")
    ∷ []
last_headers false = header (codes "Content-Length") (codes "0") ∷ []

abbrev pub headers_after_via : Copied → Bool → Bytes → ℕ → List Header
headers_after_via c options local_host port =
    header (codes "From") c.from
    ∷ header (codes "To") c.to
    ∷ header (codes "Call-ID") c.call_id
    ∷ header (codes "CSeq") c.cseq
    ∷ header (codes "Contact") (contact_value local_host port)
    ∷ header (codes "Server") (codes "Zaman/" ++ version)
    ∷ last_headers options

abbrev pub reply_headers : Copied → Bool → Bytes → ℕ → List Header
reply_headers c options local_host port =
    header (codes "Via") c.via ∷ headers_after_via c options local_host port

abbrev pub reply_line : Bytes → Bytes
reply_line method = codes "SIP/2.0 " ++ status_of method

reply_lines-texts_of :
    (c : Copied) (method local_host : Bytes) (port : ℕ)
    → reply_lines c method local_host (pos port)
      ≡ reply_line method
        ∷ texts_of (reply_headers c (equal method (codes "OPTIONS")) local_host port)
unfolding texts_of show_ℤ
reply_lines-texts_of c method local_host port = elim (Bool-cases (equal method (codes "OPTIONS"))) [
  | inl e ↦ rw e refl
  | inr e ↦ rw e refl
]

lines_text-cons :
    (line : Bytes) (lines : List Bytes)
    → lines_text (line ∷ lines) ≡ line ++ b'\r' ∷ b'\n' ∷ lines_text lines
unfolding lines_text
lines_text-cons line lines = refl

pub reply_text-render :
    (c : Copied) (method local_host : Bytes) (port : ℕ)
    → reply_text c method local_host (pos port)
      ≡ render
          (reply_line method)
          (reply_headers c (equal method (codes "OPTIONS")) local_host port)
          []
unfolding reply_text
reply_text-render c method local_host port =
    let line = reply_line method in
    let hs = reply_headers c (equal method (codes "OPTIONS")) local_host port in
    ap lines_text (reply_lines-texts_of c method local_host port)
    ∙ lines_text-cons line (texts_of hs)
    ∙ ap (λ rest. line ++ b'\r' ∷ b'\n' ∷ rest) (lines_text-texts_of hs)
    ∙ sym (append_assoc line (b'\r' ∷ []) (b'\n' ∷ header_lines hs (b'\r' ∷ b'\n' ∷ [])))
