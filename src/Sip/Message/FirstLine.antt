-- ===== src/Sip/Message/FirstLine.antt =====
-- The first line of a request and of a response.
use zaman.Base.{
  ℕ, ◌^◌, ◌<◌, ◌≡◌, refl, sym, ap, ◌∙◌, true, false, Option, some, [], ◌∷◌, ◌++◌, append-nil, All,
  arith,
}
use zaman.Text.{Bytes, codes, cut, has_prefix, to_upper}
use zaman.Text.Split.{Lacks, cut-append, has_prefix-append}
use zaman.Text.Decimal.{ℤ, pos, show, sscanf, is_digit}
use zaman.Text.Decimal.RoundTrip.{sscanf-show, show-All-digit}
use zaman.Sip.{request, response, no_fields, first_line}

-- `SIP/2.0 200 OK`
abbrev pub status_line : ℕ → Bytes → Bytes
status_line n reason = codes "SIP/2.0" ++ b' ' ∷ (show n ++ b' ' ∷ reason)

first_line_response :
    (line version rest code : Bytes) (reason : Option Bytes) (n : ℤ)
    → has_prefix line (codes "SIP/") ≡ true
    → cut b' ' line ≡ (version, some rest)
    → cut b' ' rest ≡ (code, reason)
    → sscanf code ≡ some n
    → first_line line ≡ record (no_fields response) { status = n }
unfolding first_line
first_line_response line version rest code reason n p e e' s = rw (p, e, e') (ground (arith, s))

first_line_request :
    (line method rest uri : Bytes) (version : Option Bytes)
    → has_prefix line (codes "SIP/") ≡ false
    → cut b' ' line ≡ (method, some rest)
    → cut b' ' rest ≡ (uri, version)
    → first_line line ≡ record (no_fields request) { method = to_upper method; ruri = uri }
unfolding first_line
first_line_request line method rest uri version p e e' = rw (p, e, e')

show-Lacks_space : (s : Bytes) → All (λ c. is_digit c ≡ true) s → Lacks b' ' s
show-Lacks_space [] h = tt
show-Lacks_space (c ∷ s) (h, hs) = (ground arith, show-Lacks_space s hs)

no_sip :
    (method rest : Bytes)
    → Lacks b'/' method
    → has_prefix (method ++ b' ' ∷ rest) (codes "SIP/") ≡ false
unfolding has_prefix
no_sip [] rest h = refl
no_sip (a ∷ []) rest h = ground arith
no_sip (a ∷ b ∷ []) rest h = ground arith
no_sip (a ∷ b ∷ c ∷ []) rest h = ground arith
no_sip (a ∷ b ∷ c ∷ d ∷ m) rest h = ground arith

-- A status line gives a response with its code.
pub first_line-status_line :
    (n : ℕ) (reason : Bytes)
    → n < 2 ^ 63
    → first_line (status_line n reason) ≡ record (no_fields response) { status = pos n }
first_line-status_line n reason h =
    first_line_response _ _ _ (show n) (some reason) (pos n) (has_prefix-append (codes "SIP/") _)
      (cut-append b' ' (codes "SIP/2.0") _ (omega arith))
      (cut-append b' ' (show n) reason (show-Lacks_space (show n) (show-All-digit n)))
      (ap sscanf (sym (append-nil (show n))) ∙ sscanf-show n [] h tt)

abbrev pub request_line : Bytes → Bytes → Bytes
request_line method uri = method ++ b' ' ∷ (uri ++ b' ' ∷ codes "SIP/2.0")

-- A request line gives a request with its method in upper case, and its URI.
pub first_line-request_line :
    (method uri : Bytes)
    → Lacks b' ' method
    → Lacks b'/' method
    → Lacks b' ' uri
    → first_line (request_line method uri)
      ≡ record (no_fields request) { method = to_upper method; ruri = uri }
first_line-request_line method uri hm hs hu =
    first_line_request _ method _ uri (some (codes "SIP/2.0")) (no_sip method _ hs)
      (cut-append b' ' method _ hm) (cut-append b' ' uri _ hu)
