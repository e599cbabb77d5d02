-- ===== src/Db/Batch/Keys.antt =====
-- The key of the daily rollup: day, method and transport with bars between, split again.
use zaman.Base.{ℕ, ◌≡◌, refl, sym, ap, ◌∙◌, Option, none, some, [], ◌∷◌, ◌++◌, arith}
use zaman.Text.{Bytes, cut}
use zaman.Text.Split.{Lacks, cut-append}
use zaman.Db.Batch.{split_key, with_day, with_method}

abbrev pub key_of : Bytes → Bytes → Bytes → Bytes
key_of day method transport = day ++ b'|' ∷ (method ++ b'|' ∷ transport)

rejoin : ℕ → Bytes → Option Bytes → Bytes
rejoin sep p none = p
rejoin sep p (some q) = p ++ sep ∷ q

rejoin-cons :
    (sep c : ℕ) (p : Bytes) (rest : Option Bytes) → rejoin sep (c ∷ p) rest ≡ c ∷ rejoin sep p rest
unfolding rejoin
rejoin-cons sep c p none = refl
rejoin-cons sep c p (some q) = refl

rejoin-cut : (sep : ℕ) (s : Bytes) → rejoin sep (cut sep s).0 (cut sep s).1 ≡ s
unfolding rejoin cut
rejoin-cut sep [] = refl
rejoin-cut sep (c ∷ s) =
    ground (arith, rejoin-cons sep c (cut sep s).0 (cut sep s).1, rejoin-cut sep s)

pub split_key-key_of :
    (day method transport : Bytes)
    → Lacks b'|' day
    → Lacks b'|' method
    → split_key (key_of day method transport) ≡ some (day, method, transport)
unfolding split_key
split_key-key_of day method transport d m =
    ap (λ c. with_day c.0 c.1) (cut-append b'|' day (method ++ b'|' ∷ transport) d)
    ∙ ap (λ c. with_method day c.0 c.1) (cut-append b'|' method transport m)

with_method-some :
    (d m : Bytes) (rest : Option Bytes) (day method transport : Bytes)
    → with_method d m rest ≡ some (day, method, transport)
    → d ++ b'|' ∷ rejoin b'|' m rest ≡ key_of day method transport
unfolding rejoin
with_method-some d m none day method transport e = ground (arith, e)
with_method-some d m (some t) day method transport e = ground (arith, e)

with_day-some :
    (d : Bytes) (rest : Option Bytes) (day method transport : Bytes)
    → with_day d rest ≡ some (day, method, transport)
    → rejoin b'|' d rest ≡ key_of day method transport
unfolding rejoin
with_day-some d none day method transport e = ground (arith, e)
with_day-some d (some rest) day method transport e =
    ap (λ r. d ++ b'|' ∷ r) (sym (rejoin-cut b'|' rest))
    ∙ with_method-some d (cut b'|' rest).0 (cut b'|' rest).1 day method transport e

pub split_key-some :
    (key day method transport : Bytes)
    → split_key key ≡ some (day, method, transport)
    → key ≡ key_of day method transport
unfolding split_key
split_key-some key day method transport e =
    sym (rejoin-cut b'|' key)
    ∙ with_day-some (cut b'|' key).0 (cut b'|' key).1 day method transport e
