-- ===== src/Discover/Sound.antt =====
-- What discovery finds.
use rollhook.Prelude.{
  ◌≡◌, ◌≢◌, ap, true, false, Bool-cases, inl, inr, Option, none, some, List, [], ◌∷◌, ◌++◌, Result,
  ok, err, All, arith,
}
use rollhook.Text.{Bytes}
use rollhook.Text.Equality.{beq-cases}
use rollhook.Effect.{Err, Event, listed_containers, inspected}
use rollhook.Effect.Emits.{emits_rules, Emits, Emits-pure, Emits-fail}
use rollhook.Docker.{Docker, Summary, list_running_containers, inspect_container}
use rollhook.Discover.{
  Labels, label, service_key, project_key, DiscoveryResult, image_matches, find_matching_container,
  first_config_file, extract_compose_info, wrap_error, lift, or_not_found, discover,
}

-- The container found is the first in the list that matches.
pub find_matching_container-eq_some :
    (cs : List Summary) (name : Bytes) {c : Summary}
    → find_matching_container cs name ≡ some c
    → (before : List Summary) × (after : List Summary) × (cs ≡ before ++ c ∷ after)
      × All (λ d. image_matches name d ≡ false) before
      × (image_matches name c ≡ true)
unfolding find_matching_container
find_matching_container-eq_some [] name h = cc
find_matching_container-eq_some (d ∷ cs) name {c} h = elim (Bool-cases (image_matches name d)) [
  | inl e ↦ ([], cs, ground arith, tt, ground arith)
  | inr e ↦
      let (before, after, split, skipped, found) =
        find_matching_container-eq_some cs name {c = c} (ground arith) in
      (d ∷ before, after, ap (◌∷◌ d) split, (e, skipped), found)
]

-- When no container is found, none in the list matches.
pub find_matching_container-eq_none :
    (cs : List Summary) (name : Bytes)
    → find_matching_container cs name ≡ none
    → All (λ d. image_matches name d ≡ false) cs
unfolding find_matching_container
find_matching_container-eq_none [] name h = tt
find_matching_container-eq_none (d ∷ cs) name h =
    ground (arith, find_matching_container-eq_none cs name)

-- Labels that are accepted have a Compose file, a service and a project, none of them empty, and
-- the result holds these.
pub extract_compose_info-eq_ok :
    (labels : Option Labels) (name : Bytes) {r : DiscoveryResult}
    → extract_compose_info labels name ≡ ok r
    → (labels ≡ some r.labels)
      × (r.compose_path ≡ first_config_file r.labels)
      × (r.compose_path ≢ [])
      × (r.service ≡ label service_key r.labels)
      × (r.service ≢ [])
      × (r.project ≡ label project_key r.labels)
      × (r.project ≢ [])
unfolding extract_compose_info
extract_compose_info-eq_ok none name h = cc
extract_compose_info-eq_ok (some l) name h = ground (
  arith,
  beq-cases (first_config_file l) [],
  beq-cases (label service_key l) [],
  beq-cases (label project_key l) [],
)

-- Discovery only looks: it makes no call that changes a container.
abbrev pub IsRead : Event → Type 0
IsRead (listed_containers _ _) = Unit
IsRead (inspected _ _) = Unit
IsRead _ = ⊥

module _ {W : Type 0} where
  wrap_error-reads {κ} : {A : Type κ} (r : Result Err A) → Emits IsRead (wrap_error {W = W} r)
  unfolding wrap_error lift or_not_found
  wrap_error-reads (ok a) = Emits-pure a
  wrap_error-reads (err e) = Emits-fail _

  lift-reads {κ} : {A : Type κ} (r : Result Err A) → Emits IsRead (lift {W = W} r)
  unfolding wrap_error lift or_not_found
  lift-reads (ok a) = Emits-pure a
  lift-reads (err e) = Emits-fail _

  or_not_found-reads {κ} :
      {A : Type κ} (n : Bytes) (o : Option A) → Emits IsRead (or_not_found {W = W} n o)
  unfolding wrap_error lift or_not_found
  or_not_found-reads n none = Emits-fail _
  or_not_found-reads n (some a) = Emits-pure a

module _ {W : Type 0} (cli : Docker W) where
  pub discover-reads : (tag : Bytes) → Emits IsRead (discover cli tag)
  unfolding discover list_running_containers inspect_container
  discover-reads tag =
      search (emits_rules, wrap_error-reads, lift-reads, or_not_found-reads) depth 12
