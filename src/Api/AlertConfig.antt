-- ===== src/Api/AlertConfig.antt =====
-- The route /api/alerts/config of core-go/api.go, on the file that keeps the configuration.
use zaman.Base.{◌≡◌, refl, Option, none, some, take}
use zaman.Text.{Bytes, codes}

pub data ConfigRequest : Type 0 where
  get : ConfigRequest
  post : Bytes → ConfigRequest
  other_method : ConfigRequest

pub data ConfigReply : Type 0 where
  body : Bytes → ConfigReply
  method_not_allowed : ConfigReply

abbrev pub no_alerts : Bytes
no_alerts = codes "{\"webhooks\":[],\"thresholds\":{\"asr_min\":70,\"err_rate_max\":10}}"

-- The handler; `file` is none where it cannot be read, and a body is read up to 8192 bytes.
unfoldable pub handle_config : ConfigRequest → Option Bytes → ConfigReply × Option Bytes
handle_config get none = (body no_alerts, none)
handle_config get (some config) = (body config, some config)
handle_config (post config) file = (body (codes "{\"ok\":true}"), some (take 8192 config))
handle_config other_method file = (method_not_allowed, file)

-- What was posted last is what is read, up to the limit of a body, whatever was kept before.
pub handle_config-get :
    (config : Bytes) (file : Option Bytes)
    → (handle_config get (handle_config (post config) file).1).0 ≡ body (take 8192 config)
unfolding handle_config
handle_config-get config file = refl
