-- ===== src/Web/User.antt =====
-- The user of web/main.go and its password hash.
use zaman.Base.{ℕ, zero, suc, ◌-◌}
use zaman.Text.{Bytes}
use zaman.Text.Decimal.{ℤ}

pub record User : Type 0 where
  pub id : ℤ
  pub name : Bytes
  pub pw_hash : Bytes
  pub salt : Bytes
  pub pw_algo : Bytes
  pub rounds : ℕ
  pub role : Bytes

-- hashRounds
abbrev pub hash_rounds : ℕ
hash_rounds = 25000

-- A MAC of a key and a text, in hexadecimal: HMAC-SHA256 in the program.
abbrev pub Mac : Type 0
Mac = Bytes → Bytes → Bytes

pub hash_loop : Mac → Bytes → ℕ → Bytes → Bytes
hash_loop mac salt zero h = h
hash_loop mac salt (suc n) h = hash_loop mac salt n (mac salt h)

-- hashPW
unfoldable pub hash_pw : Mac → Bytes → Bytes → ℕ → Bytes
unfolding hash_loop
hash_pw mac salt password rounds = hash_loop mac salt (rounds - 1) (mac salt password)
