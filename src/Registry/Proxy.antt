-- ===== src/Registry/Proxy.antt =====
-- internal/registry/proxy.go: `NewProxy`. What the proxy of `httputil.NewSingleHostReverseProxy`
-- does to a request in its own Director and behind the program's is a parameter, and so is the
-- Base64 encoder.
pub mod Forwarded
pub mod Tests
use rollhook.Prelude.{
  ℕ, Bool, true, false, not, ◌||◌, ◌&&◌, Option, none, some, List, [], ◌∷◌, ◌++◌, ◌+◌, ◌==◌, leb,
  select, if◌then◌else◌,
}
use rollhook.Text.{Bytes, codes, beq}
use rollhook.Text.Number.{is_digit}
use rollhook.Registry.{Crypto, validate_proxy_auth}
use rollhook.Registry.Config.{zot_user}

-- The keys are in canonical form.
abbrev pub Headers : Type 0
Headers = List (Bytes × Bytes)

pub record Request : Type 0 where
  pub path : Bytes
  pub headers : Headers

abbrev pub hop_by_hop_headers : List Bytes
hop_by_hop_headers =
    codes "Authorization"
    ∷ codes "Host"
    ∷ codes "Transfer-Encoding"
    ∷ codes "Connection"
    ∷ codes "Keep-Alive"
    ∷ codes "Proxy-Authenticate"
    ∷ codes "Proxy-Authorization"
    ∷ codes "Te"
    ∷ codes "Trailers"
    ∷ codes "Upgrade"
    ∷ []

-- `req.Header.Get`
pub get_header : Bytes → Headers → Bytes
get_header key [] = []
get_header key ((k, v) ∷ hs) = let rest = get_header key hs in if beq k key then v else rest

-- `req.Header.Del`
pub delete_header : Bytes → Headers → Headers
delete_header key hs = select (λ h. not (beq h.0 key)) hs

pub delete_headers : List Bytes → Headers → Headers
unfolding delete_header
delete_headers [] hs = hs
delete_headers (key ∷ keys) hs = delete_headers keys (delete_header key hs)

-- `req.Header.Set`
pub set_header : Bytes → Bytes → Headers → Headers
unfolding delete_header
set_header key value hs = delete_header key hs ++ (key, value) ∷ []

pub zot_auth : (Bytes → Bytes) → Bytes → Bytes
zot_auth encode secret = codes "Basic " ++ encode (zot_user ++ codes ":" ++ secret)

-- `proxy.Director`
pub director : (Request → Request) → (Bytes → Bytes) → Bytes → Request → Request
unfolding delete_headers set_header zot_auth
director original encode secret req =
    let r = original req in
    record r {
      headers =
          set_header (codes "Authorization") (zot_auth encode secret)
            (delete_headers hop_by_hop_headers r.headers);
    }

pub data Answer : Type 0 where
  unauthorized : Answer
  forwarded : Request → Answer

-- The handler; `complete` is what `proxy.ServeHTTP` makes of the client's request and of the one
-- that the Director has left.
pub serve :
    Crypto
    → (Request → Request)
    → (Request → Request → Request)
    → (Bytes → Bytes)
    → ℕ
    → Bytes
    → Request
    → Answer
unfolding director get_header
serve crypto original complete encode now secret req =
    if validate_proxy_auth crypto now secret req.path
      (get_header (codes "Authorization") req.headers)
    then forwarded (complete req (director original encode secret req))
    else unauthorized

-- A small letter for a capital one.
pub to_lower : ℕ → ℕ
to_lower c = if leb b'A' c && leb c b'Z' then c + 32 else c

-- A prefix in small letters, whatever the case of the text.
pub cut_prefix_fold : Bytes → Bytes → Option Bytes
unfolding to_lower
cut_prefix_fold [] s = some s
cut_prefix_fold (p ∷ ps) [] = none
cut_prefix_fold (p ∷ ps) (x ∷ s) =
    let rest = cut_prefix_fold ps s in if p == to_lower x then rest else none

-- `\d*`
pub skip_digits : Bytes → Bytes
skip_digits [] = []
skip_digits (c ∷ s) = let rest = skip_digits s in if is_digit c then rest else c ∷ s

-- `\d+`
pub skip_port : Bytes → Option Bytes
unfolding skip_digits
skip_port [] = none
skip_port (c ∷ s) = let rest = skip_digits s in if is_digit c then some rest else none

-- `(?i)^https?://127\.0\.0\.1:\d+`: what is behind it.
pub match_address : Bytes → Option Bytes
unfolding cut_prefix_fold skip_port
match_address loc = elim (cut_prefix_fold (codes "http://127.0.0.1:") loc) [
  | some rest ↦ skip_port rest
  | none ↦ elim (cut_prefix_fold (codes "https://127.0.0.1:") loc) [
    | some rest ↦ skip_port rest
    | none ↦ none
  ]
]

abbrev pub or_root : Bytes → Bytes
or_root rewritten = if beq rewritten [] then codes "/" else rewritten

-- `ModifyResponse`, on the `Location` header.
pub rewrite_location : Bytes → Bytes
unfolding match_address
rewrite_location loc =
    if beq loc []
    then loc
    else elim (match_address loc) [ none ↦ or_root loc | some rest ↦ or_root rest ]
