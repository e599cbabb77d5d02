-- ===== src/Sip/Redact.antt =====
-- redactSIP of core-go/sip.go.
pub mod Laws
use zaman.Base.{ℕ, ◌≡◌, refl, Bool, true, false, not, ◌||◌, List, [], ◌∷◌, ◌++◌, if◌then◌else◌}
use zaman.Text.{Bytes, codes, has_prefix, split, trim_space, to_lower}

-- The test of the loop, on one line.
unfoldable pub is_credential : Bytes → Bool
is_credential line =
    let lower = to_lower (trim_space line) in
    has_prefix lower (codes "authorization:") || has_prefix lower (codes "proxy-authorization:")

pub redact_lines : List Bytes → Bytes
unfolding is_credential
redact_lines [] = []
redact_lines (line ∷ rest) =
    let kept = redact_lines rest in if is_credential line then kept else line ++ b'\n' ∷ kept

unfoldable pub redact_sip : Bytes → Bytes
unfolding redact_lines
redact_sip msg = redact_lines (split b'\n' msg)
