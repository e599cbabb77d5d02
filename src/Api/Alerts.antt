-- ===== src/Api/Alerts.antt =====
-- A tick of alertWorker of core-go/alerts.go, for the webhooks of the configuration and the text of
-- buildAnomaliesJSON. The realtime figures that it also asks for are not looked at.
pub mod Posts
use zaman.Base.{Bool, Option, none, some, List, [], ◌∷◌, if◌then◌else◌, is_nil, map}
use zaman.Text.{Bytes, codes, equal}
use zaman.Text.Json.Value.{Json, text, object, Items, nil, cons}
use zaman.Text.Json.Value.Read.{parse}
use zaman.Api.Export.{lookup, value_text, records_of}

-- An entry of the list under `alerts`, whose values are texts.
pub record Alert : Type 0 where
  pub kind : Bytes
  pub message : Bytes
  pub cnt : Bytes

-- `a["severity"].(string)`
unfoldable pub string_or_empty : Option Json → Bytes
string_or_empty (some (text s)) = s
string_or_empty _ = []

-- The loop over the parsed anomalies; what is no object has no severity.
unfoldable pub alerts_of : Items → List Alert
unfolding lookup value_text string_or_empty equal
alerts_of nil = []
alerts_of (cons (object ms) xs) =
    let others = alerts_of xs in
    if equal (string_or_empty (lookup (codes "severity") ms)) (codes "critical")
    then record {
      kind = value_text (lookup (codes "type") ms);
      message = value_text (lookup (codes "message") ms);
      cnt = value_text (lookup (codes "count") ms);
    }
      ∷ others
    else others
alerts_of (cons _ xs) = alerts_of xs

unfoldable pub alert_list : Bytes → List Alert
unfolding alerts_of parse
alert_list anomalies = alerts_of (records_of (parse anomalies))

-- The posts that the tick starts, each with its webhook and the alerts of its body. Each is a goroutine:
-- the list is the order in which they are started, and they are made in any order.
unfoldable pub alert_tick : List Bytes → Bytes → List (Bytes × List Alert)
unfolding alert_list
alert_tick webhooks anomalies =
    if is_nil webhooks
    then []
    else if equal anomalies (codes "[]")
    then []
    else if is_nil (alert_list anomalies)
    then []
    else map (λ url. (url, alert_list anomalies)) webhooks
