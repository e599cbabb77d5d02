-- ===== src/Api/Alerts/Posts.antt =====
-- Which alerts are posted, in whatever order the posts are made.
use mathlib.Core.List.{Perm, Permᴰ}
use mathlib.Core.Logic.{∥∥₁_elim}
use native.Mathlib.Nat.{ℕ_set}
use zaman.Base.{
  ℕ, ◌+◌, ◌≡◌, refl, sym, ap, ◌∙◌, Bool, true, false, List, [], ◌∷◌, ◌++◌, map, ltb, if◌then◌else◌,
  is_nil, Bool-cases, inl, inr, arith,
}
use zaman.Text.{Bytes, codes, equal}
use zaman.Text.Decimal.{pos, geb}
use zaman.Text.Split.{equal_iff}
use zaman.Text.Json.{valid_utf8}
use zaman.Text.Json.Value.{items, print, clean, clean_items}
use zaman.Text.Json.Value.Read.{parse}
use zaman.Text.Json.Value.Printed.{parse-print}
use zaman.Db.CallState.{CaptureRecord}
use zaman.Reports.Rows.{count}
use zaman.Reports.Anomalies.{Anomaly, anomalies, anomaly_json, anomalies_json}
use zaman.Api.Export.{lookup, value_text, float_text}
use zaman.Api.Alerts.{Alert, string_or_empty, alerts_of, alert_list, alert_tick}

-- The one alert that there is.
abbrev pub server_errors : List CaptureRecord → Alert
unfolding count float_text
server_errors captures = record {
  kind = codes "5xx_errors";
  message = codes "Server errors detected in 5m";
  cnt = float_text (pos (count (λ r. geb r.status 500) captures));
}

-- The anomalies by which of them there are.
found : Bool → Bool → Bool → ℕ → ℕ → ℕ → List Anomaly
found auth errors busy a n b =
    (if auth
      then record {
        kind = codes "auth_failures";
        severity = codes "warning";
        cnt = a;
        message = codes "Elevated auth failures in 5m";
      }
        ∷ []
      else [])
    ++ ((if errors
          then record {
            kind = codes "5xx_errors";
            severity = codes "critical";
            cnt = n;
            message = codes "Server errors detected in 5m";
          }
            ∷ []
          else [])
        ++ (if busy
            then record {
              kind = codes "busy_spike";
              severity = codes "warning";
              cnt = b;
              message = codes "Elevated 486 Busy responses in 5m";
            }
              ∷ []
            else []))

alert_of : ℕ → Alert
unfolding float_text
alert_of n = record {
  kind = codes "5xx_errors";
  message = codes "Server errors detected in 5m";
  cnt = float_text (pos n);
}

alerts_of-found :
    (auth errors busy : Bool) (a n b : ℕ)
    → alerts_of (clean_items (items (map anomaly_json (found auth errors busy a n b))))
      ≡ (if errors then alert_of n ∷ [] else [])
unfolding alerts_of lookup value_text string_or_empty equal clean_items valid_utf8 anomaly_json
    found alert_of
alerts_of-found true true true a n b = refl
alerts_of-found true true false a n b = refl
alerts_of-found true false true a n b = refl
alerts_of-found true false false a n b = refl
alerts_of-found false true true a n b = refl
alerts_of-found false true false a n b = refl
alerts_of-found false false true a n b = refl
alerts_of-found false false false a n b = refl

alert_list-anomalies :
    (captures : List CaptureRecord)
    → alert_list (print (anomalies_json (anomalies captures)))
      ≡ (if ltb 0 (count (λ r. geb r.status 500) captures) then server_errors captures ∷ [] else [])
unfolding alert_list anomalies anomalies_json clean found alert_of
alert_list-anomalies captures =
    rw (parse-print (anomalies_json (anomalies captures))) (alerts_of-found _ _ _ _ _ _)

alert_list-empty : alert_list (codes "[]") ≡ []
unfolding alert_list alerts_of parse
alert_list-empty = refl

alert_tick-alert_list :
    (webhooks : List Bytes) (anomalies : Bytes)
    → alert_tick webhooks anomalies ≡ (
        if is_nil (alert_list anomalies)
        then []
        else map (λ url. (url, alert_list anomalies)) webhooks)
unfolding alert_tick
alert_tick-alert_list [] anomalies = ground arith
alert_tick-alert_list (url ∷ webhooks) anomalies =
    elim (Bool-cases (equal anomalies (codes "[]"))) [
      | inl e ↦
          let none_found =
            ap alert_list ((equal_iff anomalies (codes "[]")).0 e) ∙ alert_list-empty in
          rw (e, none_found) refl
      | inr e ↦ rw e refl
    ]

count-Permᴰ {ℓ} :
    {A : Type ℓ} {xs ys : List A} (p : A → Bool) → Permᴰ xs ys → count p xs ≡ count p ys
unfolding count
count-Permᴰ p Permᴰ.nil = refl
count-Permᴰ p (Permᴰ.cons {b = y} e d) =
    rw e (ap (λ n. (if p y then 1 else 0) + n) (count-Permᴰ p d))
count-Permᴰ p (Permᴰ.swap e f) = rw (e, f) (omega arith)
count-Permᴰ p (Permᴰ.trans d e) = count-Permᴰ p d ∙ count-Permᴰ p e

count-map {ℓ} :
    {A B : Type ℓ} (p : B → Bool) (f : A → B) (xs : List A)
    → count p (map f xs) ≡ count (λ x. p (f x)) xs
unfolding count
count-map p f [] = refl
count-map p f (x ∷ xs) = ap (λ n. (if p (f x) then 1 else 0) + n) (count-map p f xs)

-- In whatever order the posts of a tick are made, they are these, by every test on posts: where the
-- window has a response from 500 on, one to each webhook, as often as it is listed, with the server
-- errors and their number, as `%v` prints it, as its only alert; and none otherwise. No other anomaly,
-- and no threshold of the configuration, makes a tick post anything.
pub alert_tick-posts :
    (webhooks : List Bytes) (captures : List CaptureRecord) (made : List (Bytes × List Alert))
    (test : Bytes × List Alert → Bool)
    → Perm (alert_tick webhooks (print (anomalies_json (anomalies captures)))) made
    → count test made ≡ (
        if ltb 0 (count (λ r. geb r.status 500) captures)
        then count (λ url. test (url, server_errors captures ∷ [])) webhooks
        else 0)
alert_tick-posts webhooks captures made test order =
    let text = print (anomalies_json (anomalies captures)) in
    let posts : count test made ≡ count test (alert_tick webhooks text) =
      ∥∥₁_elim order (ℕ_set _ _) (λ d. sym (count-Permᴰ test d)) in
    posts
    ∙ ap (count test) (alert_tick-alert_list webhooks text)
    ∙ elim (Bool-cases (ltb 0 (count (λ r. geb r.status 500) captures))) [
      | inl e ↦ rw (alert_list-anomalies captures, e) (count-map test _ webhooks)
      | inr e ↦ rw (alert_list-anomalies captures, e) (unfold count in refl)
    ]
