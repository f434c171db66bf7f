-- ===== src/Docker/Pull.antt =====
-- `PullImage` and `parsePullStream` of internal/docker/api.go, and `Pull` of
-- internal/jobs/steps/pull.go. The JSON decoder is a parameter.
pub mod Stream
pub mod Tests
use rollhook.Prelude.{
  Bool, true, false, ◌||◌, Option, none, some, List, [], ◌∷◌, Result, ok, err, if◌then◌else◌,
}
use rollhook.Text.{Bytes, codes, beq, has_prefix, trim_space}
use rollhook.Image.{is_own_registry, extract_host}
use rollhook.Effect.{
  Io, Fault, Err, pull_refused, pull_failed, pull_stream, pulled, pulling, pull_progress, pure,
  fail, call, log, ◌>>=◌, ◌>>◌,
}
use rollhook.Docker.{Docker}

-- `pullEvent`
pub record PullEvent : Type 0 where
  pub status : Bytes
  pub error : Bytes

abbrev pub pull_log_prefixes : List Bytes
pull_log_prefixes = codes "Status:" ∷ []

-- Does one of the prefixes stand at the front?
pub starts_with_any : List Bytes → Bytes → Bool
starts_with_any [] s = false
starts_with_any (p ∷ ps) s = has_prefix p s || starts_with_any ps s

-- `buildRegistryAuth("rollhook", registryPassword, extractHost(imageTag))`: its three fields, which
-- the source encodes as base64 of JSON.
pub registry_auth : (Bytes → Bytes) → Bytes → Bytes → Bytes → Option (Bytes × Bytes × Bytes)
registry_auth url_host env secret tag =
    if is_own_registry url_host env tag
    then some (codes "rollhook", secret, extract_host tag)
    else none

module _ {W : Type 0} (cli : Docker W) (decode : Bytes → Option PullEvent) where
  pub show_event : PullEvent → Io W (Unit {0})
  show_event e =
      if beq e.status []
      then pure tt
      else if starts_with_any pull_log_prefixes e.status
      then log (pull_progress e.status)
      else pure tt

  -- The loop of the scanner over the lines of the stream.
  pub parse_pull_stream : List Bytes → Option Fault → Io W (Unit {0})
  unfolding show_event
  parse_pull_stream [] none = pure tt
  parse_pull_stream [] (some f) = fail (pull_stream f)
  parse_pull_stream (line ∷ lines) end =
      let rest = parse_pull_stream lines end in
      if beq (trim_space line) [] then rest else elim (decode (trim_space line)) [
        | none ↦ rest
        | some e ↦ if beq e.error [] then show_event e >> rest else fail (pull_failed e.error)
      ]

  pub pull_image : (Bytes → Bytes) → Bytes → Bytes → Bytes → Io W (Unit {0})
  unfolding registry_auth parse_pull_stream
  pull_image url_host env secret tag = do
    (lines, end) ←
        call (pulled tag (registry_auth url_host env secret tag))
          (cli.image_pull tag (registry_auth url_host env secret tag)) pull_refused
    parse_pull_stream lines end

  pub pull : (Bytes → Bytes) → Bytes → Bytes → Bytes → Io W (Unit {0})
  unfolding pull_image
  pull url_host env secret tag = do log (pulling tag); pull_image url_host env secret tag
