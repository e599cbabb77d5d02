-- ===== src/Api/Message.antt =====
-- The route /api/messages/ of core-go/api.go: one message by its number.
use zaman.Base.{
  ℕ, ◌≡◌, ◌<◌, ◌^◌, refl, Option, none, some, List, [], ◌∷◌, ◌++◌, ◌==◌, if◌then◌else◌, is_nil,
  length, drop,
}
use zaman.Text.{Bytes, codes, has_prefix}
use zaman.Text.Decimal.{ℤ, pos, atoi, show}
use zaman.Text.Decimal.RoundTrip.{atoi-show, show_head}
use zaman.Text.Json.Value.{print}
use zaman.Db.Batch.{Capture}
use zaman.Reports.Messages.{message_json}

-- `SELECT … FROM captures WHERE id=$1`
unfoldable pub find_capture : ℕ → List Capture → Option Capture
find_capture id [] = none
find_capture id (c ∷ captures) = if c.id == id then some c else find_capture id captures

abbrev pub route_prefix : Bytes
route_prefix = codes "/api/messages/"

-- `strings.TrimPrefix`
abbrev pub trim_prefix : Bytes → Bytes → Bytes
unfolding has_prefix
trim_prefix s p = if has_prefix s p then drop (length p) s else s

abbrev pub message_or_null : Option Capture → Bytes
unfolding message_json
message_or_null none = codes "null"
message_or_null (some c) = print (message_json c)

abbrev pub message_of : Option ℤ → List Capture → Bytes
unfolding find_capture
message_of (some (pos id)) captures = message_or_null (find_capture id captures)
message_of _ captures = codes "null"

-- The handler
unfoldable pub handle_message : Bytes → List Capture → Bytes
unfolding atoi
handle_message path captures =
    let id_text = trim_prefix path route_prefix in
    if is_nil id_text then codes "null" else message_of (atoi id_text) captures

-- The path of a number is answered with the row of this number, and with null where there is none.
pub handle_message-show :
    (id : ℕ) (captures : List Capture)
    → id < 2 ^ 63
    → handle_message (route_prefix ++ show id) captures ≡ message_or_null (find_capture id captures)
unfolding handle_message has_prefix message_or_null message_of
handle_message-show id captures h =
    let (c, s, digit, e) = show_head id in rw (atoi-show id h, e) refl
