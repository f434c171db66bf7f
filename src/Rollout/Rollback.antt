-- ===== src/Rollout/Rollback.antt =====
-- Which containers `rollbackContainers` and the drain of step 5 surely stop and remove.
use rollhook.Prelude.{List, [], ◌∷◌, ◌++◌, Result, ok, err, ◌≡◌, refl, All}
use rollhook.Text.{Bytes}
use rollhook.Effect.{
  Io, Err, Event, stopped, removed, Line, Context, job_context, background, attempt, log, ◌>>=◌,
  ◌>>◌,
}
use rollhook.Effect.Invert.{Returns, Returns-attempt, Returns-log, Returns-then, returns_rules}
use rollhook.Effect.Makes.{
  Occurs, InOrder, Occurs-append_right, InOrder-append_right, Makes, Makes-after, Makes-here,
}
use rollhook.Docker.{Docker, stop_container, remove_container}
use rollhook.Host.{Host}
use rollhook.Rollout.{log_error, drain_all, rollback_each, rollback_containers}

-- The container is stopped and, later, removed.
abbrev pub Retires : Context → List Event → Bytes → Type 0
Retires c es id = InOrder (stopped c id) (removed c id) es

module _ {W : Type 0} (cli : Docker W) (host : Host W) where
  pub log_error-Returns :
      (f : Err → Line) (r : Result Err (Unit {0})) → Returns (log_error cli host f r)
  unfolding log_error
  log_error-Returns f (ok _) = search returns_rules
  log_error-Returns f (err e) = search returns_rules

  pub drain_all-Returns : (ids : List Bytes) → Returns (drain_all cli host ids)
  unfolding drain_all
  drain_all-Returns [] = search returns_rules
  drain_all-Returns (id ∷ ids) = Returns-then _ _ (Returns-log _) λ _.
      Returns-then _ _ (Returns-attempt _) λ s. Returns-then _ _ (log_error-Returns _ s) λ _.
        Returns-then _ _ (Returns-attempt _)
          λ r. Returns-then _ _ (log_error-Returns _ r) λ _. drain_all-Returns ids

  stop-event :
      (c : Context) (id : Bytes) (w : W)
      → (attempt (stop_container cli c id) w).1 ≡ stopped c id ∷ []
  unfolding ◌>>=◌ stop_container
  stop-event c id w = refl

  remove-event :
      (c : Context) (id : Bytes) (w : W)
      → (attempt (remove_container cli c id) w).1 ≡ removed c id ∷ []
  unfolding ◌>>=◌ remove_container
  remove-event c id w = refl

  -- Stop, log, remove, log, and the rest: the shape of both loops.
  module _ (c : Context) (id : Bytes) (first : Line) (f g : Err → Line)
      (rest : Io W (Unit {0})) where
    abbrev retire : Io W (Unit {0})
    retire = do
      log first
      s ← attempt (stop_container cli c id)
      log_error cli host f s
      r ← attempt (remove_container cli c id)
      log_error cli host g r
      rest

    retire-Retires : Makes (λ es. Retires c es id) retire
    retire-Retires =
        Makes-after _ _ _ (Returns-log _) (InOrder-append_right (stopped c id) (removed c id)) λ _.
          Makes-here _ _ _ (stopped c id) (Returns-attempt _) (stop-event c id)
            λ s w. ([], _, refl, (removal s).at w)
      where
        removal :
            (s : Result Err (Unit {0}))
            → Makes (Occurs (removed c id)) (do
              log_error cli host f s
              r ← attempt (remove_container cli c id)
              log_error cli host g r
              rest)
        removal s =
            Makes-after _ _ _ (log_error-Returns f s) (Occurs-append_right (removed c id)) λ _.
              Makes-here _ _ _ (removed c id) (Returns-attempt _) (remove-event c id)
                λ r w. ([], _, refl)

    retire_rest :
        (Q : List Event → Type 0)
        → ((xs es : List Event) → Q es → Q (xs ++ es))
        → Makes Q rest
        → Makes Q retire
    retire_rest Q closed k = Makes-after Q _ _ (Returns-log _) closed λ _.
        Makes-after Q _ _ (Returns-attempt _) closed λ s.
          Makes-after Q _ _ (log_error-Returns f s) closed λ _.
            Makes-after Q _ _ (Returns-attempt _) closed
              λ r. Makes-after Q _ _ (log_error-Returns g r) closed λ _. k

  All-append_right :
      (c : Context) (ids : List Bytes) (xs es : List Event)
      → All (Retires c es) ids
      → All (Retires c (xs ++ es)) ids
  All-append_right c [] xs es h = tt
  All-append_right c (id ∷ ids) xs es h = (
    InOrder-append_right (stopped c id) (removed c id) xs es h.0,
    All-append_right c ids xs es h.1,
  )

  pub drain_all-Retires :
      (ids : List Bytes) → Makes (λ es. All (Retires job_context es) ids) (drain_all cli host ids)
  unfolding drain_all
  drain_all-Retires [] = record { at = λ w. tt }
  drain_all-Retires (id ∷ ids) = record {
    at = λ w. (
      (retire-Retires job_context id _ _ _ (drain_all cli host ids)).at w,
      (retire_rest job_context id _ _ _ (drain_all cli host ids)
            (λ es. All (Retires job_context es) ids) (All-append_right job_context ids)
            (drain_all-Retires ids)).at
          w,
    );
  }

  rollback_each-Retires :
      (ids : List Bytes)
      → Makes (λ es. All (Retires background es) ids) (rollback_each cli host ids)
  unfolding rollback_each
  rollback_each-Retires [] = record { at = λ w. tt }
  rollback_each-Retires (id ∷ ids) = record {
    at = λ w. (
      (retire-Retires background id _ _ _ (rollback_each cli host ids)).at w,
      (retire_rest background id _ _ _ (rollback_each cli host ids)
            (λ es. All (Retires background es) ids) (All-append_right background ids)
            (rollback_each-Retires ids)).at
          w,
    );
  }

  -- A rollback stops and then removes every container that it is given, whatever of it fails, under
  -- a context of its own.
  pub rollback_containers-Retires :
      (ids : List Bytes) (reason : Err) (w : W)
      → All (Retires background (rollback_containers cli host ids reason w).1) ids
  unfolding rollback_containers
  rollback_containers-Retires ids reason =
      (Makes-after (λ es. All (Retires background es) ids) _ _ (Returns-log _)
        (All-append_right background ids) (λ _. rollback_each-Retires ids)).at
