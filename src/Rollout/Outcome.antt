-- ===== src/Rollout/Outcome.antt =====
-- What a rollout has done when it returns: the old containers survive a failure, and are replaced
-- only behind healthy new ones.
use rollhook.Prelude.{List, [], ◌∷◌, ok, err, ℤ, arith, ◌≡◌, ◌≢◌, All, map}
use rollhook.Text.{Bytes}
use rollhook.Effect.{Io, Err, Event, stopped, removed, Context, deferring, ◌>>◌}
use rollhook.Effect.Emits.{Emits, Emits-then, Emits-bind, Emits-mono, Emits-attempt, Emits-log}
use rollhook.Effect.Invert.{Returns, Returns-then, Returns-log}
use rollhook.Effect.OnError.{
  EmitsOnError, OnError-Returns, OnError-bind, OnError-deferring, OnError-after,
}
use rollhook.Docker.{Docker, Summary, list_service_containers}
use rollhook.Host.{Host}
use rollhook.Rollout.{distinct, drain_old, bring_up, remove_env, replace, rollout}
use rollhook.Rollout.Quiet.{
  IsQuiet, compose_up-IsQuiet, poll_new-IsQuiet, list-IsQuiet, write_temp_env-IsQuiet,
  prepared-IsQuiet, remove_env-IsQuiet,
}
use rollhook.Rollout.Touches.{wait_all-Emits}
use rollhook.Rollout.Rollback.{drain_all-Returns}
use rollhook.Rollout.Polls.{AreNew, not_member-distinct, All-map_id, poll_new-ok}

-- The event stops or removes none of these containers.
abbrev pub Spares : List Summary → Event → Type 0
Spares old (stopped _ id) = All (λ c. c.id ≢ id) old
Spares old (removed _ id) = All (λ c. c.id ≢ id) old
Spares old _ = Unit

quiet-Spares : (old : List Summary) (e : Event) → IsQuiet e → Spares old e
quiet-Spares old (stopped c id) h = elim h [ ]
quiet-Spares old (removed c id) h = elim h [ ]
quiet-Spares old _ h = tt

abbrev pub ids_of : List Summary → List Bytes
ids_of = map (λ (c : Summary). c.id)

new-ends :
    (old new : List Summary)
    → AreNew (distinct (ids_of old)) new
    → All (λ id. (c : Context) → Spares old (stopped c id) × Spares old (removed c id)) (ids_of new)
new-ends old [] h = tt
new-ends old (c ∷ new) h =
    let apart = All-map_id _ old (not_member-distinct c.id (ids_of old) (ground (arith, h.0))) in
    ((λ _. (apart, apart)), new-ends old new h.1)

pub quietly {κ} :
    {W : Type 0} {A : Type κ} (old : List Summary) {m : Io W A}
    → Emits IsQuiet m
    → Emits (Spares old) m
quietly old k = Emits-mono _ (quiet-Spares old) k

module _ {W : Type 0} (cli : Docker W) (host : Host W) where
  pub bring_up-Spares :
      (timeout : ℤ) (path service project : Bytes) (old : List Summary) (env : Bytes)
      → Emits
          (Spares old)
          (bring_up cli host timeout path service project (distinct (ids_of old)) env)
  unfolding bring_up
  bring_up-Spares timeout path service project old env =
      Emits-then _ _ (quietly old (compose_up-IsQuiet cli host _ _ _ _)) λ _.
        Emits-bind _ _ (quietly old (poll_new-IsQuiet cli host _ _ _ _)) λ w new e.
          wait_all-Emits cli host _ _ _ _ (record {
            quiet = quiet-Spares old;
            ends = new-ends old new (poll_new-ok cli host _ _ _ _ w e).0;
          })

  pub drain_old-Returns :
      (service : Bytes) (ids : List Bytes) → Returns (drain_old cli host service ids)
  unfolding drain_old
  drain_old-Returns service ids = Returns-then _ _ (drain_all-Returns cli host _) λ _. Returns-log _

  deploy-OnError :
      (timeout : ℤ) (path service project : Bytes) (old : List Summary) (env : Bytes)
      → EmitsOnError (Spares old) (
          deferring
            (bring_up cli host timeout path service project (distinct (ids_of old)) env
              >> drain_old cli host service (distinct (ids_of old)))
            (remove_env cli host env))
  deploy-OnError timeout path service project old env =
      OnError-deferring _ _
        (OnError-bind _ _ (bring_up-Spares timeout path service project old env)
          λ _ _ _. OnError-Returns _ (drain_old-Returns service _))
        (quietly old (remove_env-IsQuiet cli host env))

  replace-OnError :
      (timeout : ℤ) (path service project tag : Bytes) (old : List Summary)
      → EmitsOnError (Spares old) (replace cli host timeout path service project tag old)
  unfolding replace
  replace-OnError timeout path service project tag old = OnError-bind _ _ (Emits-log _ tt) λ _ _ _.
      OnError-bind _ _ (Emits-attempt _ (quietly old (write_temp_env-IsQuiet cli host _ tag)))
        λ _ a _.
          OnError-bind _ _ (quietly old (prepared-IsQuiet cli host a))
            λ _ env _. deploy-OnError timeout path service project old env

  -- A rollout that fails, for whatever reason, has stopped and removed no container that its
  -- first listing of the service's containers found.
  pub rollout_failure-Spares :
      (path service project tag : Bytes) (w : W) (old : List Summary) (e : Err)
      → (list_service_containers cli project service w).0 ≡ ok old
      → (rollout cli host path service project tag w).0 ≡ err e
      → All (Spares old) (rollout cli host path service project tag w).1
  unfolding rollout
  rollout_failure-Spares path service project tag w old e listed failed =
      OnError-after _ _ w old e (quietly old (list-IsQuiet cli host project service))
        (replace-OnError _ path service project tag old) listed failed
