-- ===== src/Cache.antt =====
-- core-go/cache.go: the texts that are kept for the routes of the API.
pub mod Refresh
use zaman.Base.{◌≡◌, refl, Bool, Option, none, some, List, [], ◌∷◌, if◌then◌else◌, is_nil}
use zaman.Text.{Bytes, codes, equal}

-- `data`, a map from keys to texts
abbrev pub Cache : Type 0
Cache = Bytes → Option Bytes

abbrev pub new_cache : Cache
new_cache key = none

unfoldable pub set_text : Bytes → Bytes → Cache → Cache
unfolding equal
set_text key value c other = if equal key other then some value else c other

-- `Get`
abbrev pub get : Bytes → Cache → Option Bytes
get key c = c key

-- What the six builders return in one refresh.
pub record Built : Type 0 where
  pub realtime : Bytes
  pub nodes : Bytes
  pub calls : Bytes
  pub top_talkers : Bytes
  pub agents : Bytes
  pub sla_agents : Bytes

-- `if j := …; j != "" { cache.Set(key, j) }`
unfoldable pub set_built : Bytes → Bytes → Cache → Cache
unfolding set_text
set_built key value c = if is_nil value then c else set_text key value c

unfoldable pub refresh_cache : Built → Cache → Cache
unfolding set_built
refresh_cache b c = set_built (codes "sla_agents") b.sla_agents (
    set_built (codes "agents") b.agents (
      set_built (codes "top_talkers") b.top_talkers (
        set_built (codes "calls") b.calls
          (set_built (codes "nodes") b.nodes (set_built (codes "realtime") b.realtime c)))))

-- cacheWorker: a refresh at the start, and one at each tick.
unfoldable pub cache_worker : List Built → Cache → Cache
unfolding refresh_cache
cache_worker [] c = c
cache_worker (b ∷ bs) c = cache_worker bs (refresh_cache b c)

-- A route that answers from the cache where it has its text.
unfoldable pub cached_or : Bytes → Bytes → Cache → Bytes
cached_or key built c = elim (get key c) [ some j ↦ j | none ↦ built ]
