-- ===== src/Docker/Pull/Stream.antt =====
-- What the reading of a pull's stream answers, and to which registries the secret goes.
use rollhook.Prelude.{
  true, Option, none, some, List, [], ◌∷◌, ◌++◌, Result, ok, err, if◌then◌else◌, ◌≡◌, ◌≢◌, ◌⊎◌, inl,
  inr, refl, ap, ◌∙◌, Bool-cases, Option-cases, arith,
}
use rollhook.Text.{Bytes, beq, trim_space}
use rollhook.Text.Equality.{beq-cases}
use rollhook.Image.{is_own_registry, extract_host, is_localhost}
use rollhook.Effect.{
  Io, Fault, Err, Event, logged, pull_failed, pull_stream, pull_progress, pure, fail, ◌>>=◌, ◌>>◌,
}
use rollhook.Docker.{Docker}
use rollhook.Docker.Pull.{
  PullEvent, pull_log_prefixes, starts_with_any, registry_auth, show_event, parse_pull_stream,
}

-- The secret is offered only to a registry on this machine or on the host of a `ROLLHOOK_URL` that
-- is set and has a host.
pub registry_auth-own :
    (url_host : Bytes → Bytes) (env secret tag : Bytes) (auth : Bytes × Bytes × Bytes)
    → registry_auth url_host env secret tag ≡ some auth
    → (is_localhost tag ≡ true)
      ⊎ ((env ≢ []) × (url_host env ≢ []) × (extract_host tag ≡ url_host env))
unfolding registry_auth is_own_registry
registry_auth-own url_host env secret tag auth h = elim (Bool-cases (is_localhost tag)) [
  | inl b ↦ inl b
  | inr b ↦ elim (beq-cases env []) [
    | inl (e, _) ↦ ground (arith, b, e, h)
    | inr (e, ne) ↦ elim (beq-cases (url_host env) []) [
      | inl (u, _) ↦ ground (arith, b, e, u, h)
      | inr (u, nu) ↦ elim (beq-cases (extract_host tag) (url_host env)) [
        | inl (_, x) ↦ inr (ne, nu, x)
        | inr (x, _) ↦ ground (arith, b, e, u, x, h)
      ]
    ]
  ]
]

module _ {W : Type 0} (cli : Docker W) (decode : Bytes → Option PullEvent) where
  -- The events of a stream: a blank line and one that is no JSON object are none.
  pub stream_events : List Bytes → List PullEvent
  stream_events [] = []
  stream_events (line ∷ lines) =
      let rest = stream_events lines in
      if beq (trim_space line) []
      then rest
      else elim (decode (trim_space line)) [ none ↦ rest | some e ↦ e ∷ rest ]

  -- The first error of the daemon, else the end of the stream.
  end_of : Option Fault → Result Err (Unit {0})
  end_of none = ok tt
  end_of (some f) = err (pull_stream f)

  pub verdict : Option Fault → List PullEvent → Result Err (Unit {0})
  unfolding end_of
  verdict end [] = end_of end
  verdict end (e ∷ es) =
      let rest = verdict end es in if beq e.error [] then rest else err (pull_failed e.error)

  -- The line that an event logs, if it has a shown prefix.
  abbrev shown : PullEvent → List Event
  shown e =
      if beq e.status []
      then []
      else if starts_with_any pull_log_prefixes e.status
      then logged (pull_progress e.status) ∷ []
      else []

  -- The lines up to the first error.
  pub progress : List PullEvent → List Event
  progress [] = []
  progress (e ∷ es) = let rest = progress es in if beq e.error [] then shown e ++ rest else []

  show-then :
      (e : PullEvent) (rest : Io W (Unit {0})) (w : W)
      → (show_event cli decode e >> rest) w ≡ ((rest w).0, shown e ++ (rest w).1, (rest w).2)
  unfolding show_event ◌>>=◌
  show-then e rest w = elim (Bool-cases (beq e.status [])) [
    | inl b ↦ rw b refl
    | inr b ↦ elim (Bool-cases (starts_with_any pull_log_prefixes e.status)) [
      | inl s ↦ rw (b, s) refl
      | inr s ↦ rw (b, s) refl
    ]
  ]

  -- The reading of a stream answers the first error event's text, whatever the later lines are, and
  -- else the scanner's error or success; it logs the shown status lines before that, in order, and
  -- nothing else.
  pub parse_pull_stream-verdict :
      (lines : List Bytes) (end : Option Fault) (w : W)
      → parse_pull_stream cli decode lines end w
        ≡ (verdict end (stream_events lines), progress (stream_events lines), w)
  unfolding parse_pull_stream stream_events verdict progress pure fail
  parse_pull_stream-verdict [] none w = refl
  parse_pull_stream-verdict [] (some f) w = refl
  parse_pull_stream-verdict (line ∷ lines) end w = elim (Bool-cases (beq (trim_space line) [])) [
    | inl b ↦ rw b (parse_pull_stream-verdict lines end w)
    | inr b ↦ elim (Option-cases (decode (trim_space line))) [
      | inl d ↦ rw (b, d) (parse_pull_stream-verdict lines end w)
      | inr (e, d) ↦ elim (Bool-cases (beq e.error [])) [
        | inl r ↦
            rw (b, d, r)
              (show-then e (parse_pull_stream cli decode lines end) w
                ∙ ap (λ t. (t.0, shown e ++ t.1, t.2)) (parse_pull_stream-verdict lines end w))
        | inr r ↦ rw (b, d, r) refl
      ]
    ]
  ]
