-- ===== src/Cache/Refresh.antt =====
-- What the cache holds after any number of refreshes.
use zaman.Base.{◌≡◌, refl, ap, ◌∙◌, Option, some, List, [], ◌∷◌, map, if◌then◌else◌, is_nil, arith}
use zaman.Text.{Bytes, codes, equal}
use zaman.Cache.{Cache, get, Built, set_built, refresh_cache, cache_worker}

-- The last text that is not empty, or what was there before.
pub latest : Option Bytes → List Bytes → Option Bytes
latest old [] = old
latest old (value ∷ values) = latest (if is_nil value then old else some value) values

-- A part of the API with its key and its builder.
pub data Part : Type 0 where
  realtime nodes calls top_talkers agents sla_agents : Part

abbrev pub key_of : Part → Bytes
key_of realtime = codes "realtime"
key_of nodes = codes "nodes"
key_of calls = codes "calls"
key_of top_talkers = codes "top_talkers"
key_of agents = codes "agents"
key_of sla_agents = codes "sla_agents"

abbrev pub built_for : Part → Built → Bytes
built_for realtime b = b.realtime
built_for nodes b = b.nodes
built_for calls b = b.calls
built_for top_talkers b = b.top_talkers
built_for agents b = b.agents
built_for sla_agents b = b.sla_agents

set_built_lem :
    (key value other : Bytes) (c : Cache)
    → set_built key value c other
      ≡ (if equal key other then (if is_nil value then c other else some value) else c other)
unfolding set_built
set_built_lem key value other c = ground arith

pub get-refresh_cache :
    (part : Part) (b : Built) (c : Cache)
    → get (key_of part) (refresh_cache b c)
      ≡ (if is_nil (built_for part b) then get (key_of part) c else some (built_for part b))
unfolding refresh_cache equal
get-refresh_cache realtime b c = simp set_built_lem
get-refresh_cache nodes b c = simp set_built_lem
get-refresh_cache calls b c = simp set_built_lem
get-refresh_cache top_talkers b c = simp set_built_lem
get-refresh_cache agents b c = simp set_built_lem
get-refresh_cache sla_agents b c = simp set_built_lem

-- After any refreshes the cache has under each key the last text that its builder returned and that was
-- not empty, or what it had before: each builder has a key of its own, and an empty text takes nothing
-- away.
pub get-cache_worker :
    (part : Part) (bs : List Built) (c : Cache)
    → get (key_of part) (cache_worker bs c) ≡ latest (get (key_of part) c) (map (built_for part) bs)
unfolding cache_worker latest
get-cache_worker part [] c = refl
get-cache_worker part (b ∷ bs) c =
    get-cache_worker part bs (refresh_cache b c)
    ∙ ap (λ o. latest o (map (built_for part) bs)) (get-refresh_cache part b c)
