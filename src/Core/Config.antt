-- ===== src/Core/Config.antt =====
-- Config and loadConfig of core-go/main.go. The environment is a function from names to values, empty
-- where a variable is not set; the arguments are those behind the program's name.
use zaman.Base.{ℕ, Bool, none, some, List, [], ◌∷◌, if◌then◌else◌, is_nil}
use zaman.Text.{Bytes, codes, equal, split, trim_space}
use zaman.Text.Decimal.{ℤ, pos, atoi}

pub record Config : Type 0 where
  pub sip_host : Bytes
  pub sip_port : ℤ
  pub hep_port : ℤ
  pub api_port : ℤ
  pub hep_tcp : Bool
  pub hep_tcp_port : ℤ
  pub hep_tls : Bool
  pub hep_tls_port : ℤ
  pub hep_tls_cert : Bytes
  pub hep_tls_key : Bytes
  pub db_driver : Bytes
  pub db_dsn : Bytes
  pub api_key : Bytes
  pub hep_password : Bytes
  pub hep_allow : List Bytes
  pub echo_all : Bool
  pub probe_enabled : Bool
  pub probe_allow_private : Bool
  pub retention_days : ℤ
  pub rate_limit : ℤ
  pub trusted_proxy : Bytes
  pub static_dir : Bytes
  pub concurrent_call_max_age : ℤ
  pub ringing_max_age : ℤ
  pub kpi_window_min : ℤ
  pub asr_exclude_codes : List ℤ
  pub federation_target : Bytes

-- `if v := …; v != "" { return v }; return fallback`
abbrev or_default : Bytes → Bytes → Bytes
or_default v fallback = if is_nil v then fallback else v

-- The value that `strconv.Atoi` gives, or `old` on an error.
abbrev atoi_or : ℤ → Bytes → ℤ
atoi_or old s = elim (atoi s) [ none ↦ old | some n ↦ n ]

-- An entry of the allow list is trimmed, and left out if it is then empty.
unfoldable pub allow_list : List Bytes → List Bytes
allow_list [] = []
allow_list (s ∷ rest) =
    let more = allow_list rest in
    let host = trim_space s in if is_nil host then more else host ∷ more

unfoldable pub exclude_codes : List Bytes → List ℤ
exclude_codes [] = []
exclude_codes (s ∷ rest) =
    let more = exclude_codes rest in elim (atoi (trim_space s)) [ none ↦ more | some n ↦ n ∷ more ]

-- An argument overrides the port if it is there and is a number.
arg_or : ℤ → List Bytes → ℤ
arg_or old [] = old
arg_or old (arg ∷ _) = atoi_or old arg

rest_of : List Bytes → List Bytes
rest_of [] = []
rest_of (_ ∷ args) = args

module _ (getenv : Bytes → Bytes) where
  unfoldable pub env : Bytes → Bytes → Bytes
  env key fallback = or_default (getenv key) fallback

  unfoldable pub env_int : Bytes → ℕ → ℤ
  unfolding atoi
  env_int key fallback = atoi_or (pos fallback) (getenv key)

  -- `env(key, "0") == "1"`
  unfoldable pub env_flag : Bytes → Bool
  unfolding env equal
  env_flag key = equal (env key (codes "0")) (codes "1")

  unfoldable pub load_config : List Bytes → Config
  unfolding env env_int env_flag allow_list exclude_codes arg_or rest_of split trim_space
  load_config args = record {
    sip_host = env (codes "ZAMAN_SIP_HOST") (codes "0.0.0.0");
    sip_port = arg_or (env_int (codes "ZAMAN_SIP_PORT") 5060) args;
    hep_port = arg_or (env_int (codes "ZAMAN_HEP_PORT") 9060) (rest_of args);
    api_port = arg_or (env_int (codes "ZAMAN_API_PORT") 9090) (rest_of (rest_of args));
    hep_tcp = env_flag (codes "ZAMAN_HEP_TCP");
    hep_tcp_port = env_int (codes "ZAMAN_HEP_TCP_PORT") 9062;
    hep_tls = env_flag (codes "ZAMAN_HEP_TLS");
    hep_tls_port = env_int (codes "ZAMAN_HEP_TLS_PORT") 9061;
    hep_tls_cert = env (codes "ZAMAN_HEP_TLS_CERT") [];
    hep_tls_key = env (codes "ZAMAN_HEP_TLS_KEY") [];
    db_driver = env (codes "ZAMAN_DB_DRIVER") (codes "postgres");
    db_dsn = env (codes "ZAMAN_DB_DSN") (codes "host=localhost dbname=zaman sslmode=disable");
    api_key = env (codes "ZAMAN_API_KEY") [];
    hep_password = env (codes "ZAMAN_HEP_PASSWORD") [];
    hep_allow =
        let allow = env (codes "ZAMAN_HEP_ALLOW") [] in
        if is_nil allow then [] else allow_list (split b',' allow);
    echo_all = env_flag (codes "ZAMAN_ECHO_ALL");
    probe_enabled = env_flag (codes "ZAMAN_PROBE");
    probe_allow_private = env_flag (codes "ZAMAN_PROBE_ALLOW_PRIVATE");
    retention_days = env_int (codes "ZAMAN_DB_RETENTION_DAYS") 14;
    rate_limit = env_int (codes "ZAMAN_RATE_LIMIT") 100;
    trusted_proxy = env (codes "ZAMAN_TRUSTED_PROXY") [];
    static_dir = env (codes "ZAMAN_STATIC_DIR") (codes "web/static");
    concurrent_call_max_age = env_int (codes "ZAMAN_CONCURRENT_CALL_MAX_AGE_SEC") 7200;
    ringing_max_age = env_int (codes "ZAMAN_CONCURRENT_RINGING_MAX_AGE_SEC") 300;
    kpi_window_min = env_int (codes "ZAMAN_KPI_WINDOW_MIN") 1440;
    asr_exclude_codes =
        let list = env (codes "ZAMAN_ASR_EXCLUDE_STATUS_CODES") [] in
        if is_nil list then pos 403 ∷ pos 503 ∷ [] else exclude_codes (split b',' list);
    federation_target = env (codes "ZAMAN_FEDERATION_TARGET") [];
  }
