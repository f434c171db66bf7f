-- ===== src/Registry/Proxy/Forwarded.antt =====
-- What the proxy passes on, in both directions.
use rollhook.Prelude.{
  ℕ, true, false, some, [], ◌∷◌, ◌++◌, ◌≡◌, ◌≢◌, ◌⊎◌, refl, ap, ◌∙◌, inl, inr, All,
}
use rollhook.Text.{Bytes, codes, beq}
use rollhook.Text.Number.{is_digit}
use rollhook.Registry.{Crypto, credential, validate_proxy_auth}
use rollhook.Registry.Access.{MayUse}
use rollhook.Registry.Proxy.{
  Headers, Request, hop_by_hop_headers, get_header, zot_auth, Answer, unauthorized, forwarded,
  cut_prefix_fold, skip_digits, skip_port, match_address, rewrite_location,
}

-- No header with one of these keys.
abbrev pub LacksKey : Bytes → Headers → Type 0
LacksKey key hs = All (λ h. h.0 ≢ key) hs

-- No header of the list in front of the proxy's own credentials.
abbrev pub IsClean : Bytes → Headers → Type 0
IsClean auth hs =
    (front : Headers) × (hs ≡ front ++ (codes "Authorization", auth) ∷ [])
    × All (λ key. LacksKey key front) hop_by_hop_headers

-- One of the headers.
abbrev pub Has : Bytes × Bytes → Headers → Type 0
Has h hs = (before : Headers) × (after : Headers) × (hs ≡ before ++ h ∷ after)

-- What `ReverseProxy` adds by itself: it passes on that the client takes trailers, and it sets the
-- client's address and an empty agent.
abbrev pub IsAdded : Bytes × Bytes → Type 0
IsAdded h =
    (h ≡ (codes "Te", codes "trailers"))
    ⊎ ((h.0 ≡ codes "X-Forwarded-For") ⊎ (h.0 ≡ codes "User-Agent"))

-- The documentation of `ReverseProxy`: behind the Director it removes the headers of the connection
-- that are left and adds its own; it upgrades the connection only when the Director leaves the
-- headers for that.
abbrev pub Completes : (Request → Request → Request) → Type 0
Completes complete =
    (req out : Request)
    → LacksKey (codes "Connection") out.headers
    → LacksKey (codes "Upgrade") out.headers
    → All (λ h. Has h out.headers ⊎ IsAdded h) (complete req out).headers
      × ((v : Bytes)
          → Has (codes "Authorization", v) out.headers
          → Has (codes "Authorization", v) (complete req out).headers)

-- A header that may reach the registry: the proxy's credentials, none of those that the Director
-- strips, or one that `ReverseProxy` adds.
abbrev pub IsProper : Bytes → Bytes × Bytes → Type 0
IsProper auth h =
    (h ≡ (codes "Authorization", auth)) ⊎ (All (λ key. h.0 ≢ key) hop_by_hop_headers ⊎ IsAdded h)

-- What the handler does with a request: it answers 401, or it passes on a request with proper
-- headers, the proxy's credentials among them.
abbrev pub Passes : Crypto → (Bytes → Bytes) → ℕ → Bytes → Request → Answer → Type 0
Passes crypto encode now secret req unauthorized =
    validate_proxy_auth crypto now secret req.path (get_header (codes "Authorization") req.headers)
    ≡ false
Passes crypto encode now secret req (forwarded r) =
    ((token : Bytes) × (credential crypto (get_header (codes "Authorization") req.headers)
        ≡ some token)
      × MayUse crypto now secret req.path token)
    × All (IsProper (zot_auth encode secret)) r.headers
    × Has (codes "Authorization", zot_auth encode secret) r.headers

skip_digits-append :
    (port path : Bytes)
    → All (λ c. is_digit c ≡ true) port
    → skip_digits (port ++ b'/' ∷ path) ≡ b'/' ∷ path
unfolding skip_digits
skip_digits-append [] path h = refl
skip_digits-append (c ∷ port) path h = rw h.0 (skip_digits-append port path h.1)

skip_port-append :
    (c : ℕ) (port path : Bytes)
    → All (λ c. is_digit c ≡ true) (c ∷ port)
    → skip_port ((c ∷ port) ++ b'/' ∷ path) ≡ some (b'/' ∷ path)
unfolding skip_port
skip_port-append c port path h = rw h.0 (ap some (skip_digits-append port path h.1))

-- The two schemes in front of the registry's address.
abbrev pub IsAddress : Bytes → Type 0
IsAddress address = (address ≡ codes "http://127.0.0.1:") ⊎ (address ≡ codes "https://127.0.0.1:")

match_address-http :
    (rest : Bytes) → match_address (codes "http://127.0.0.1:" ++ rest) ≡ skip_port rest
unfolding match_address cut_prefix_fold
match_address-http rest = refl

match_address-https :
    (rest : Bytes) → match_address (codes "https://127.0.0.1:" ++ rest) ≡ skip_port rest
unfolding match_address cut_prefix_fold
match_address-https rest = refl

rewrite_location-match :
    (c : ℕ) (loc path : Bytes)
    → match_address (c ∷ loc) ≡ some (b'/' ∷ path)
    → rewrite_location (c ∷ loc) ≡ b'/' ∷ path
unfolding rewrite_location beq
rewrite_location-match c loc path h = rw (rewrite_location, h) refl

-- A `Location` that is an absolute URL of the registry's own address, whatever its port, is
-- rewritten to its path, so that the client comes back through the proxy.
pub rewrite_location-address :
    (address : Bytes) (c : ℕ) (port path : Bytes)
    → IsAddress address
    → All (λ c. is_digit c ≡ true) (c ∷ port)
    → rewrite_location (address ++ ((c ∷ port) ++ b'/' ∷ path)) ≡ b'/' ∷ path
rewrite_location-address address c port path (inl e) h =
    ap (λ a. rewrite_location (a ++ ((c ∷ port) ++ b'/' ∷ path))) e
    ∙ rewrite_location-match _ _ path (match_address-http _ ∙ skip_port-append c port path h)
rewrite_location-address address c port path (inr e) h =
    ap (λ a. rewrite_location (a ++ ((c ∷ port) ++ b'/' ∷ path))) e
    ∙ rewrite_location-match _ _ path (match_address-https _ ∙ skip_port-append c port path h)
