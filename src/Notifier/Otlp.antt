-- ===== src/Notifier/Otlp.antt =====
-- internal/notifier/otlp.go: the log record of a deployment, and the parsing of the headers. A map
-- of headers is the list of its entries, each key once.
pub mod Parsed
use rollhook.Prelude.{
  ℕ, Bool, true, false, Option, none, some, List, [], ◌∷◌, ◌++◌, ◌==◌, if◌then◌else◌, take, drop,
  suc,
}
use rollhook.Text.{Bytes, codes, beq, index, split, trim_space, trim_right}
use rollhook.Store.{Job}

abbrev pub Headers : Type 0
Headers = List (Bytes × Bytes)

-- `otlpKeyValue`
abbrev pub Attributes : Type 0
Attributes = List (Bytes × Bytes)

-- `otlpPayload` has one resource, with one scope, with one record: the attributes of the
-- resource, the scope's name and the fields of the record.
pub record Payload : Type 0 where
  pub resource_attributes : Attributes
  pub scope_name : Bytes
  pub time_unix_nano : ℕ
  pub severity_number : ℕ
  pub severity_text : Bytes
  pub body : Bytes
  pub attributes : Attributes

-- The first half of `sendOTLP`.
pub otlp_payload : Bool → Bytes → ℕ → Job → Payload
otlp_payload is_success environment now job = record {
  resource_attributes =
      (codes "service.name", codes "rollhook")
      ∷ (if beq environment [] then [] else (codes "deployment.environment", environment) ∷ []);
  scope_name = codes "rollhook";
  time_unix_nano = now;
  severity_number = if is_success then 9 else 17;
  severity_text = if is_success then codes "INFO" else codes "ERROR";
  body = codes "Deploy: " ++ job.app ++ codes " " ++ job.image_tag;
  attributes =
      (codes "deploy.service", job.app)
      ∷ (codes "deploy.image_tag", job.image_tag)
      ∷ (codes "deploy.status", if is_success then codes "success" else codes "failed")
      ∷ (codes "deploy.job_id", job.id)
      ∷ [];
}

-- `strings.TrimRight(endpoint, "/") + "/v1/logs"`
pub otlp_url : Bytes → Bytes
otlp_url endpoint = trim_right (λ c. c == b'/') endpoint ++ codes "/v1/logs"

-- `out[key] = val`
pub put : Bytes → Bytes → Headers → Headers
put key val [] = (key, val) ∷ []
put key val ((k, v) ∷ rest) =
    let tail = put key val rest in if beq k key then (key, val) ∷ rest else (k, v) ∷ tail

-- One pair of the list: the key and the value, if it has a `=` and a key.
pub header_of : Bytes → Option (Bytes × Bytes)
header_of pair = elim (index b'=' pair) [
  | none ↦ none
  | some eq ↦
      let key = trim_space (take eq pair) in
      let val = trim_space (drop (suc eq) pair) in if beq key [] then none else some (key, val)
]

pub add_header : Option (Bytes × Bytes) → Headers → Headers
unfolding put
add_header none out = out
add_header (some (key, val)) out = put key val out

pub add_headers : List Bytes → Headers → Headers
unfolding add_header header_of
add_headers [] out = out
add_headers (pair ∷ pairs) out = add_headers pairs (add_header (header_of pair) out)

-- `parseOTLPHeaders`
pub parse_otlp_headers : Bytes → Headers
unfolding add_headers
parse_otlp_headers raw = if beq raw [] then [] else add_headers (split b',' raw) []
