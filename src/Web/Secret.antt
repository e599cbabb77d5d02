-- ===== src/Web/Secret.antt =====
-- loadOrCreateSecret of web/main.go: the key of the session tokens, and the file that keeps it.
use zaman.Base.{
  ◌≡◌, ◌≤◌, refl, Option, none, some, leb, length, if◌then◌else◌, arith, Bool-cases, inl, inr,
}
use zaman.Text.{Bytes, trim_space}
use zaman.Text.Trim.{IsTrimmed, trim_space-IsTrimmed}

-- The secret, and the file after it; `file` is none where it cannot be read, and `random` is the text
-- of randomHex.
unfoldable pub load_or_create_secret : Bytes → Option Bytes → Bytes × Option Bytes
unfolding trim_space
load_or_create_secret random none = (random, some random)
load_or_create_secret random (some bytes) =
    if leb 32 (length bytes) then (trim_space bytes, some bytes) else (random, some random)

-- However the file was found, a later start of the server reads the secret of the first start, so the
-- tokens of the first one stay good: the random text is long enough and has no space around it.
pub secret-stable :
    (random later : Bytes) (file : Option Bytes)
    → 32 ≤ length random
    → IsTrimmed random
    → (let (secret, stored) = load_or_create_secret random file in
        load_or_create_secret later stored ≡ (secret, stored))
unfolding load_or_create_secret
secret-stable random later none long trimmed =
    ground (arith, long, trim_space-IsTrimmed random trimmed)
secret-stable random later (some bytes) long trimmed = elim (Bool-cases (leb 32 (length bytes))) [
  | inl kept ↦ rw (kept, kept) refl
  | inr short ↦ rw short (ground (arith, long, trim_space-IsTrimmed random trimmed))
]
