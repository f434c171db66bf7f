-- ===== src/Docker/Pull/Tests.antt =====
-- A pull from a registry on this machine, and a stream with an error.
use rollhook.Prelude.{Option, none, some, [], ◌∷◌, ◌≡◌, refl}
use rollhook.Text.{Bytes, codes, index, has_prefix, cut_prefix}
use rollhook.Image.{is_localhost, extract_host, is_own_registry}
use rollhook.Docker.Pull.{PullEvent, registry_auth, parse_pull_stream}
use rollhook.Docker.Pull.Stream.{verdict, progress, stream_events, parse_pull_stream-verdict}
use rollhook.Fixtures.{docker, before}

abbrev no_text : Bytes
no_text = []

abbrev tag : Bytes
tag = codes "localhost:7700/app:v1"

offered :
    registry_auth (λ url. no_text) no_text (codes "s3cret") tag
    ≡ some (codes "rollhook", codes "s3cret", codes "localhost:7700")
unfolding registry_auth is_own_registry is_localhost extract_host index has_prefix cut_prefix
offered = refl

-- Every line is an event with that error.
abbrev as_error : Bytes → Option PullEvent
as_error line = some (record { status = []; error = line })

parse_pull_stream-verdict_example :
    parse_pull_stream docker as_error (codes " " ∷ codes "denied" ∷ []) none before ≡ (
      verdict docker as_error none
          (stream_events docker as_error (codes " " ∷ codes "denied" ∷ [])),
      progress docker as_error (stream_events docker as_error (codes " " ∷ codes "denied" ∷ [])),
      before,
    )
parse_pull_stream-verdict_example =
    parse_pull_stream-verdict docker as_error (codes " " ∷ codes "denied" ∷ []) none before
