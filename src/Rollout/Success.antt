-- ===== src/Rollout/Success.antt =====
-- What a successful rollout has done, and in which order.
use rollhook.Prelude.{
  ℕ, ltb, ◌-◌, ◌+◌, ◌≤◌, List, [], ◌∷◌, ◌++◌, Result, ok, err, ℤ, arith, ◌≡◌, refl, ap, sym, ◌∙◌,
  All, All-imp, length, if◌then◌else◌, append_assoc,
}
use rollhook.Text.{Bytes}
use rollhook.Effect.{
  Err, Event, stopped, removed, job_context, Io, attempt, deferring, log, ◌>>◌, ◌>>=◌,
}
use rollhook.Effect.Emits.{Emits-attempt, Emits-log}
use rollhook.Effect.Invert.{>>=-eq_ok, >>=-ok, fail-ne_ok, attempt-eq_ok}
use rollhook.Effect.Makes.{InOrder-append_left, Occurs-bind_left, Occurs-bind_right}
use rollhook.Effect.Phases.{TwoPhases, Phases, Phases-bind, Phases-at, IsClosed}
use rollhook.Docker.{Docker, Summary, list_service_containers}
use rollhook.Host.{Host}
use rollhook.Rollout.{
  scale_target, distinct, drain_all, drain_old, or_roll_back, rollback_containers, wait_all,
  wait_healthy, bring_up, poll_new_containers, compose_up, remove_env, replace, rollout,
}
use rollhook.Rollout.Quiet.{list-IsQuiet, write_temp_env-IsQuiet, prepared-IsQuiet}
use rollhook.Rollout.Seen.{SeenHealthy, wait_healthy-ok}
use rollhook.Rollout.Rollback.{Retires, drain_all-Returns, drain_all-Retires}
use rollhook.Rollout.Polls.{AreNew, poll_new-ok}
use rollhook.Rollout.Outcome.{Spares, ids_of, quietly, bring_up-Spares}
use rollhook.Rollout.Ranged.{VisitsAll, All-ranged}

module _ {W : Type 0} (cli : Docker W) (host : Host W) where
  wait_all-ok :
      (timeout : ℤ) (new_ids : List Bytes) (i : ℕ) (ids : List Bytes) (w : W)
      → (wait_all cli host timeout new_ids i ids w).0 ≡ ok tt
      → All (SeenHealthy cli host (wait_all cli host timeout new_ids i ids w).1) ids
  unfolding wait_all
  wait_all-ok timeout new_ids i [] w h = tt
  wait_all-ok timeout new_ids i (id ∷ ids) w h =
      let (u, e1, h1) = >>=-eq_ok (log _) _ w h in
      let (answer, e2, h2) = >>=-eq_ok (attempt (wait_healthy cli host id timeout)) _ _ h1 in
      let (v, e3, h3) = >>=-eq_ok (or_roll_back cli host new_ids answer) _ _ h2 in
      (
        Occurs-bind_right _ _ _ w u e1 (
            Occurs-bind_left _ _ _ _ answer e2
              (attempted id _ (attempt-eq_ok _ _ answer e2 ∙ succeeded answer _ e3))),
        All-imp ids
            (λ x o.
              Occurs-bind_right _ _ _ w u e1
                (Occurs-bind_right _ _ _ _ answer e2 (Occurs-bind_right _ _ _ _ v e3 o)))
            (wait_all-ok timeout new_ids (i + 1) ids _ h3),
      )
    where
      attempted :
          (x : Bytes) (w' : W)
          → (wait_healthy cli host x timeout w').0 ≡ ok tt
          → SeenHealthy cli host (attempt (wait_healthy cli host x timeout) w').1 x
      attempted x w' k = unfold attempt in wait_healthy-ok cli host x timeout w' k

      succeeded :
          (r : Result Err (Unit {0})) (w' : W)
          → (or_roll_back cli host new_ids r w').0 ≡ ok tt
          → r ≡ ok tt
      succeeded (ok _) w' k = refl
      succeeded (err e) w' k =
          let (_, _, bad) = >>=-eq_ok (rollback_containers cli host new_ids e) _ w' k in
          absurd (fail-ne_ok _ tt _ bad)

  -- The events of the poll that answered these containers, in the state `polled`, and those behind
  -- it, in each of which each of the containers was seen healthy.
  abbrev pub Polled : Bytes → Bytes → List Summary → List Event → List Summary → Type 0
  Polled project service old before new =
      (polled : W) × (expected : ℕ) × (front : List Event) × (rest : List Event) × (before
        ≡ front
          ++ ((poll_new_containers cli host project service (distinct (ids_of old)) expected
                polled).1
              ++ rest))
      × ((poll_new_containers cli host project service (distinct (ids_of old)) expected polled).0
          ≡ ok new)
      × (1 ≤ expected)
      × (length (distinct (ids_of old)) ≤ expected)
      × All (SeenHealthy cli host rest) (ids_of new)

  -- The new containers, which a poll answered: at least one, as many as the old ones, none of them
  -- old, each seen healthy behind the poll.
  abbrev pub Replaced : Bytes → Bytes → List Summary → List Event → List Summary → Type 0
  Replaced project service old before new =
      AreNew (distinct (ids_of old)) new
      × (1 ≤ length new)
      × (length (distinct (ids_of old)) ≤ length new)
      × Polled project service old before new

  Polled-append :
      (project service : Bytes) (old new : List Summary) (xs before : List Event)
      → Polled project service old before new
      → Polled project service old (xs ++ before) new
  Polled-append project service old new xs before
        (polled, expected, front, rest, e, found, one, n, seen) =
      (
        polled,
        expected,
        xs ++ front,
        rest,
        ap (λ l. xs ++ l) e ∙ sym (append_assoc xs front _),
        found,
        one,
        n,
        seen,
      )

  expected_bounds :
      (n : ℕ)
      → let e = if ltb (scale_target n - n) 1 then 1 else scale_target n - n in (1 ≤ e) × (n ≤ e)
  unfolding scale_target
  expected_bounds n = ground arith

  bring_up-ok :
      (timeout : ℤ) (path service project : Bytes) (old : List Summary) (env : Bytes) (w : W)
      → (bring_up cli host timeout path service project (distinct (ids_of old)) env w).0 ≡ ok tt
      → (new : List Summary) × Replaced project service old
          (bring_up cli host timeout path service project (distinct (ids_of old)) env w).1
          new
  unfolding bring_up
  bring_up-ok timeout path service project old env w h =
      let ids = distinct (ids_of old) in
      let expected =
        if ltb (scale_target (length ids) - length ids) 1
        then 1
        else scale_target (length ids) - length ids in
      let up = compose_up cli host path env service (scale_target (length ids)) in
      let poll = poll_new_containers cli host project service ids expected in
      let wait : List Summary → Io W (Unit {0}) =
        λ new. wait_all cli host timeout (ids_of new) 1 (ids_of new) in
      let (u, e1, h1) = >>=-eq_ok up (λ _. poll >>= wait) w h in
      let (new, found, h2) = >>=-eq_ok poll wait (up w).2 h1 in
      let (fresh, enough) = poll_new-ok cli host project service ids expected (up w).2 found in
      let (one, n) = expected_bounds (length ids) in
      let events =
        ap (λ t. t.1) (>>=-ok up (λ _. poll >>= wait) w u e1)
        ∙ ap (λ t. (up w).1 ++ t.1) (>>=-ok poll wait (up w).2 new found) in
      let seen = wait_all-ok timeout (ids_of new) 1 (ids_of new) (poll (up w).2).2 h2 in
      (
        new,
        (
          fresh,
          omega (arith, one, enough),
          omega (arith, n, enough),
          (
            (up w).2,
            expected,
            (up w).1,
            (wait new (poll (up w).2).2).1,
            events,
            found,
            one,
            n,
            seen,
          ),
        ),
      )

  -- Each old container is stopped and then removed, and the new ones stand.
  abbrev pub Done : Bytes → Bytes → List Summary → List Event → List Event → Type 0
  Done project service old before after =
      All (λ c. Retires job_context after c.id) old
      × ((new : List Summary) × Replaced project service old before new)

  Done-closed : (project service : Bytes) (old : List Summary) → IsClosed (Done project service old)
  Done-closed project service old xs before after (retired, (new, (fresh, one, n, polled))) =
      (retired, (new, (fresh, one, n, Polled-append project service old new xs before polled)))

  All-append_left :
      (ids : List Bytes) (es ys : List Event)
      → All (Retires job_context es) ids
      → All (Retires job_context (es ++ ys)) ids
  All-append_left ids es ys =
      All-imp ids
        (λ id h. InOrder-append_left (stopped job_context id) (removed job_context id) es ys h)

  drain_old-Retires :
      (service : Bytes) (ids : List Bytes) (w : W)
      → All (Retires job_context (drain_old cli host service ids w).1) (host.range_order ids)
  unfolding drain_old
  drain_old-Retires service ids w =
      let (u, e) = (drain_all-Returns cli host (host.range_order ids)).at w in
      rw (>>=-ok (drain_all cli host (host.range_order ids)) _ w u e) (
        All-append_left (host.range_order ids) _ _
          ((drain_all-Retires cli host (host.range_order ids)).at w))

  deploy-Phases :
      (timeout : ℤ) (path service project : Bytes) (old : List Summary) (env : Bytes)
      → VisitsAll host
      → Phases (Spares old) (Done project service old) (
          deferring
            (bring_up cli host timeout path service project (distinct (ids_of old)) env
              >> drain_old cli host service (distinct (ids_of old)))
            (remove_env cli host env))
  unfolding deferring
  deploy-Phases timeout path service project old env visits = record {
    at = λ w a h.
        let up = bring_up cli host timeout path service project (distinct (ids_of old)) env in
        let down = drain_old cli host service (distinct (ids_of old)) in
        let (u, healthy, _) = >>=-eq_ok up (λ _. down) w h in
        let drained = (down (up w).2).1 in
        let cleaned = (remove_env cli host env ((up >> down) w).2).1 in
        (
          (up w).1,
          drained ++ cleaned,
          ap (λ t. t.1 ++ cleaned) (>>=-ok up (λ _. down) w u healthy)
              ∙ append_assoc (up w).1 drained cleaned,
          (bring_up-Spares cli host timeout path service project old env).at w,
          (
            All-ranged host (Retires job_context (drained ++ cleaned)) old visits
                (All-append_left _ drained cleaned (drain_old-Retires service _ (up w).2)),
            bring_up-ok timeout path service project old env w healthy,
          ),
        );
  }

  replace-Phases :
      (timeout : ℤ) (path service project tag : Bytes) (old : List Summary)
      → VisitsAll host
      → Phases
          (Spares old)
          (Done project service old)
          (replace cli host timeout path service project tag old)
  unfolding replace
  replace-Phases timeout path service project tag old visits =
      Phases-bind _ _ (Done-closed project service old) (Emits-log _ tt) λ _.
        Phases-bind _ _ (Done-closed project service old)
          (Emits-attempt _ (quietly old (write_temp_env-IsQuiet cli host _ tag)))
          λ a.
            Phases-bind _ _ (Done-closed project service old)
              (quietly old (prepared-IsQuiet cli host a))
              λ env. deploy-Phases timeout path service project old env visits

  -- Zero downtime: the events of a rollout that returns no error fall into two phases. In the first
  -- no old container is stopped or removed. The answer of a poll in it holds at least one
  -- container, and as many as there are old ones, none of them old, and behind the poll an
  -- inspection found each container of this answer healthy. Each old one is stopped and then
  -- removed in the second phase. `VisitsAll` says that `range` visits every key.
  pub rollout-zero_downtime :
      (path service project tag : Bytes) (w : W) (old : List Summary)
      → VisitsAll host
      → (list_service_containers cli project service w).0 ≡ ok old
      → (rollout cli host path service project tag w).0 ≡ ok tt
      → TwoPhases
          (Spares old)
          (Done project service old)
          (rollout cli host path service project tag w).1
  unfolding rollout
  rollout-zero_downtime path service project tag w old visits listed h =
      (Phases-at (list_service_containers cli project service) _ w old tt
        (Done-closed project service old) (quietly old (list-IsQuiet cli host project service))
        (replace-Phases _ path service project tag old visits) listed h)
