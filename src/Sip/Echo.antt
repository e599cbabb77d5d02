-- ===== src/Sip/Echo.antt =====
-- echoAllowed and buildEcho of core-go/sip.go.
pub mod Render
pub mod Request
pub mod Headers
pub mod Reply
use zaman.Base.{
  Bool, true, false, ◌||◌, Option, none, some, List, [], ◌∷◌, ◌++◌, if◌then◌else◌, is_nil,
}
use zaman.Text.{Bytes, codes, equal, equal_fold, split, trim_space, to_lower}
use zaman.Text.Decimal.{ℤ, show_ℤ}
use zaman.Core.Config.{Config, env}
use zaman.Sip.{is_response, header_of, parse_sip}

-- Is the method one of the list, apart from case and the spaces round the entry.
unfoldable pub listed : Bytes → List Bytes → Bool
unfolding equal_fold
listed method [] = false
listed method (m ∷ rest) = equal_fold (trim_space m) method || listed method rest

unfoldable pub echo_allowed : (Bytes → Bytes) → Bytes → Config → Bool
unfolding listed env
echo_allowed getenv method cfg =
    let methods = env getenv (codes "ZAMAN_ECHO_METHODS") (codes "OPTIONS") in
    if cfg.echo_all
    then true
    else if equal_fold methods (codes "ALL")
    then true
    else listed method (split b',' methods)

-- The headers that a reply copies.
pub record Copied : Type 0 where
  pub via : Bytes
  pub from : Bytes
  pub to : Bytes
  pub call_id : Bytes
  pub cseq : Bytes

abbrev pub nothing_copied : Copied
nothing_copied = record { via = []; from = []; to = []; call_id = []; cseq = [] }

-- The switch of the header loop: the first Via counts, and the last header of every other name.
unfoldable pub copy_header : Copied → Bytes → Bytes → Copied
copy_header c name value =
    if equal name (codes "via") || equal name (codes "v")
    then record c { via = if is_nil c.via then value else c.via }
    else if equal name (codes "from") || equal name (codes "f")
    then record c { from = value }
    else if equal name (codes "to") || equal name (codes "t")
    then record c { to = value }
    else if equal name (codes "call-id") || equal name (codes "i")
    then record c { call_id = value }
    else if equal name (codes "cseq")
    then record c { cseq = value }
    else c

unfoldable pub copy_line : Copied → Bytes → Copied
unfolding copy_header header_of
copy_line c line = elim (header_of line) [
  | none ↦ c
  | some (name, value) ↦ copy_header c (to_lower (trim_space name)) (trim_space value)
]

unfoldable pub copy_headers : Copied → List Bytes → Copied
unfolding copy_line
copy_headers c [] = c
copy_headers c (raw ∷ rest) = elim (is_nil (trim_space raw)) [
  | true ↦ c
  | false ↦ copy_headers (copy_line c (trim_space raw)) rest
]

abbrev pub version : Bytes
version = codes "0.4.0"

-- Each line with `\r\n` behind it.
unfoldable pub lines_text : List Bytes → Bytes
lines_text [] = []
lines_text (line ∷ lines) = line ++ b'\r' ∷ b'\n' ∷ lines_text lines

abbrev pub status_of : Bytes → Bytes
status_of method =
    if equal method (codes "REGISTER") then codes "401 Unauthorized" else codes "200 OK"

abbrev pub contact : Bytes → ℤ → Bytes
contact local_host local_port =
    codes "Contact: <sip:" ++ (local_host ++ b':' ∷ (show_ℤ local_port ++ codes ">"))

-- The Allow line, which only the reply to OPTIONS has.
abbrev pub allow_lines : Bytes → List Bytes → List Bytes
allow_lines method rest =
    if equal method (codes "OPTIONS")
    then codes "Allow: INVITE,ACK,BYE,CANCEL,OPTIONS,REGISTER,INFO" ∷ rest
    else rest

-- The lines of the reply, the empty one at the end included.
abbrev pub reply_lines : Copied → Bytes → Bytes → ℤ → List Bytes
reply_lines c method local_host local_port =
    let last = allow_lines method (codes "Content-Length: 0" ∷ [] ∷ []) in
    (codes "SIP/2.0 " ++ status_of method)
    ∷ (codes "Via: " ++ c.via)
    ∷ (codes "From: " ++ c.from)
    ∷ (codes "To: " ++ c.to)
    ∷ (codes "Call-ID: " ++ c.call_id)
    ∷ (codes "CSeq: " ++ c.cseq)
    ∷ contact local_host local_port
    ∷ (codes "Server: Zaman/" ++ version)
    ∷ last

unfoldable pub reply_text : Copied → Bytes → Bytes → ℤ → Bytes
unfolding lines_text
reply_text c method local_host local_port = lines_text (reply_lines c method local_host local_port)

-- `none` is the empty text: no reply.
unfoldable pub build_echo : Bytes → Bytes → ℤ → Option Bytes
unfolding parse_sip copy_headers reply_text
build_echo msg local_host local_port =
    let info = parse_sip msg in
    if is_response info.kind
    then none
    else some (
        reply_text (copy_headers nothing_copied (split b'\n' msg)) info.method local_host
          local_port)
