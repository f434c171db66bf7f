-- ===== src/Docker/Prune/Kept.antt =====
-- Which images a prune removes, and which it never does.
use rollhook.Prelude.{
  ℕ, zero, suc, ◌-◌, ◌<◌, Bool, true, false, not, ◌||◌, List, [], ◌∷◌, ◌++◌, Result, ok, err, pos,
  ltb, ◌==◌, arith, ◌≡◌, ◌≢◌, refl, ap, ◌∙◌, All, select, length, map, drop, drop-nil,
  if◌then◌else◌, Bool-cases, inl, inr,
}
use rollhook.Text.{Bytes}
use rollhook.Text.Equality.{beq-cases}
use rollhook.Image.{repo_from_ref}
use rollhook.Effect.{Io, Fault, Event, image_removed, pure, log, ◌>>=◌, ◌>>◌}
use rollhook.Effect.Invert.{>>=-ok, Returns, Returns-log}
use rollhook.Docker.{Docker, Summary, ImageSummary}
use rollhook.Docker.Prune.{
  has_tag, in_use, outcome, remove_image, prune_from, list_images, list_all_containers, candidates,
  prune_repo, prune_keep, prune_images,
}
use rollhook.Docker.Prune.Chosen.{
  elem, has_tag-elem, in_use-elem, select-ext, unused, to_remove, unkept, unkept_step,
}

-- The images whose removal was asked for, in order.
pub removals : List Event → List Bytes
removals [] = []
removals (image_removed id ∷ es) = id ∷ removals es
removals (_ ∷ es) = removals es

removals-append : (xs ys : List Event) → removals (xs ++ ys) ≡ removals xs ++ removals ys
unfolding removals
removals-append [] ys = refl
removals-append (image_removed id ∷ es) ys = ap (◌∷◌ id) (removals-append es ys)
removals-append (_ ∷ es) ys = removals-append es ys

-- The law of a sort: for every test as many elements pass it as before.
abbrev pub Permutes : (List ImageSummary → List ImageSummary) → Type 0
Permutes sort =
    (p : ImageSummary → Bool) (xs : List ImageSummary)
    → length (select p (sort xs)) ≡ length (select p xs)

none_pass :
    (p : ImageSummary → Bool) (xs : List ImageSummary)
    → length (select p xs) ≡ 0
    → All (λ x. p x ≡ false) xs
none_pass p [] h = tt
none_pass p (x ∷ xs) h = ground (arith, none_pass p xs)

select_out :
    (p : ImageSummary → Bool) (xs : List ImageSummary)
    → length (select p (select (λ x. not (p x)) xs)) ≡ 0
select_out p [] = refl
select_out p (x ∷ xs) = ground (arith, select_out p xs)

module _ {W : Type 0} (cli : Docker W) (sort : List ImageSummary → List ImageSummary) where
  outcome-Returns :
      (label : Bytes) (r : Result Fault (Unit {0})) → Returns (outcome cli sort label r)
  unfolding outcome
  outcome-Returns label (ok _) = Returns-log _
  outcome-Returns label (err Fault.not_found) = Returns-log _
  outcome-Returns label (err Fault.conflict) = Returns-log _
  outcome-Returns label (err _) = Returns-log _

  removals-outcome :
      (label : Bytes) (r : Result Fault (Unit {0})) (w : W)
      → removals (outcome cli sort label r w).1 ≡ []
  unfolding outcome removals log
  removals-outcome label (ok _) w = refl
  removals-outcome label (err Fault.not_found) w = refl
  removals-outcome label (err Fault.conflict) w = refl
  removals-outcome label (err _) w = refl

  -- One image of the loop.
  visit : Bool → ImageSummary → Io W (Unit {0})
  visit kept img = if kept then pure tt else remove_image cli sort img

  visit_lem :
      (kept : Bool) (img : ImageSummary) (w : W)
      → ((visit kept img w).0 ≡ ok tt)
        × (removals (visit kept img w).1 ≡ (if kept then [] else img.id ∷ []))
  unfolding visit remove_image removals ◌>>=◌
  visit_lem true img w = (refl, refl)
  visit_lem false img w =
      let (r, w') = cli.image_remove img.id w in
      let (_, e) = (outcome-Returns _ r).at w' in (e, ap (◌∷◌ img.id) (removals-outcome _ r w'))

  after_visit :
      (kept : Bool) (img : ImageSummary) (rest : Io W (Unit {0})) (w : W)
      → removals ((visit kept img >> rest) w).1
        ≡ (if kept then [] else img.id ∷ []) ++ removals (rest (visit kept img w).2).1
  after_visit kept img rest w =
      let (done, own) = visit_lem kept img w in
      ap (λ t. removals t.1) (>>=-ok (visit kept img) (λ _. rest) w tt done)
      ∙ removals-append (visit kept img w).1 _
      ∙ ap (λ l. l ++ removals (rest (visit kept img w).2).1) own

  -- The loop asks for the removal of exactly the images from index `keep` on that do not bear the
  -- tag.
  removals-prune_from :
      (i keep : ℕ) (tag : Bytes) (images : List ImageSummary) (w : W)
      → removals (prune_from cli sort i keep tag images w).1 ≡ unkept (keep - i) tag images
  unfolding prune_from removals visit pure
  removals-prune_from i keep tag [] w = rw drop-nil
  removals-prune_from i keep tag (img ∷ images) w =
      after_visit (ltb i keep || has_tag tag img.repo_tags) img
        (prune_from cli sort (suc i) keep tag images) w
      ∙ ap (◌++◌ (if ltb i keep || has_tag tag img.repo_tags then [] else img.id ∷ []))
          (removals-prune_from (suc i) keep tag images _)
      ∙ unkept_step i keep tag img images

  removals-list_images : (repo : Bytes) (w : W) → removals (list_images cli sort repo w).1 ≡ []
  unfolding list_images removals ◌>>=◌
  removals-list_images repo w = refl

  removals-list_all : (w : W) → removals (list_all_containers cli sort w).1 ≡ []
  unfolding list_all_containers removals ◌>>=◌
  removals-list_all w = refl

  removals-bind :
      {A : Type 0} (m : Io W A) (f : A → Io W (Unit {0})) (w : W) (a : A)
      → (m w).0 ≡ ok a
      → removals (m w).1 ≡ []
      → removals ((m >>= f) w).1 ≡ removals (f a (m w).2).1
  removals-bind m f w a done quiet =
      ap (λ t. removals t.1) (>>=-ok m f w a done)
      ∙ removals-append (m w).1 _
      ∙ ap (λ l. l ++ removals (f a (m w).2).1) quiet

  removals-prune_repo :
      (keep : ℕ) (tag repo : Bytes) (w : W) (images : List ImageSummary) (containers : List Summary)
      → (list_images cli sort repo w).0 ≡ ok images
      → (list_all_containers cli sort (list_images cli sort repo w).2).0 ≡ ok containers
      → removals (prune_repo cli sort keep tag repo w).1
        ≡ unkept keep tag (candidates cli sort containers images)
  unfolding prune_repo
  removals-prune_repo keep tag repo w images containers listed running =
      let whole : keep - 0 ≡ keep = ground arith in
      removals-bind (list_images cli sort repo)
        (λ imgs. list_all_containers cli sort >>= λ cs.
          prune_from cli sort 0 keep tag (candidates cli sort cs imgs))
        w images listed (removals-list_images repo w)
      ∙ removals-bind (list_all_containers cli sort)
          (λ cs. prune_from cli sort 0 keep tag (candidates cli sort cs images))
          (list_images cli sort repo w).2 containers running
          (removals-list_all (list_images cli sort repo w).2)
      ∙ removals-prune_from 0 keep tag (candidates cli sort containers images) _
      ∙ ap (λ n. unkept n tag (candidates cli sort containers images)) whole

  removals-candidates :
      (keep : ℕ) (tag : Bytes) (w : W) (images : List ImageSummary) (containers : List Summary)
      → 0 < keep
      → repo_from_ref tag ≢ []
      → (list_images cli sort (repo_from_ref tag) w).0 ≡ ok images
      → (list_all_containers cli sort (list_images cli sort (repo_from_ref tag) w).2).0
        ≡ ok containers
      → removals (prune_images cli sort tag (pos keep) w).1
        ≡ unkept keep tag (candidates cli sort containers images)
  unfolding prune_images prune_keep
  removals-candidates keep tag w images containers positive named listed running =
      elim (beq-cases (repo_from_ref tag) []) [
        | inl (_, e) ↦ absurd (named e)
        | inr (e, _) ↦
            let k : (keep == 0) ≡ false = ground arith in
            rw (e, k) (removals-prune_repo keep tag _ w images containers listed running)
      ]

  candidates-unused :
      (keep : ℕ) (tag : Bytes) (containers : List Summary) (images : List ImageSummary)
      → unkept keep tag (candidates cli sort containers images)
        ≡ to_remove keep tag (sort (unused containers images))
  unfolding candidates
  candidates-unused keep tag containers images =
      ap (λ l. unkept keep tag (sort l))
        (select-ext (λ img. not (in_use containers img.id))
          (λ img. not (elem img.id (map (λ (c : Summary). c.image_id) containers))) images
          (λ img. ap not (in_use-elem containers img.id)))
      ∙ ap (map (λ (img : ImageSummary). img.id)) (
          select-ext (λ img. not (has_tag tag img.repo_tags)) (λ img. not (elem tag img.repo_tags))
            (drop keep (sort (unused containers images)))
            (λ img. ap not (has_tag-elem tag img.repo_tags)))

  -- A prune asks for the removal of exactly these images: of those that are listed for the
  -- repository and are not the image of any listed container, in the order of the sort, all behind
  -- the first `keep` that do not bear the deployed tag. `keep` is positive, the reference has a
  -- repository, and both lists are answered.
  pub removals-prune_images :
      (keep : ℕ) (tag : Bytes) (w : W) (images : List ImageSummary) (containers : List Summary)
      → 0 < keep
      → repo_from_ref tag ≢ []
      → (list_images cli sort (repo_from_ref tag) w).0 ≡ ok images
      → (list_all_containers cli sort (list_images cli sort (repo_from_ref tag) w).2).0
        ≡ ok containers
      → removals (prune_images cli sort tag (pos keep) w).1
        ≡ to_remove keep tag (sort (unused containers images))
  removals-prune_images keep tag w images containers positive named listed running =
      removals-candidates keep tag w images containers positive named listed running
      ∙ candidates-unused keep tag containers images

  All-drop :
      (P : ImageSummary → Type 0) (n : ℕ) (xs : List ImageSummary) → All P xs → All P (drop n xs)
  All-drop P zero xs h = h
  All-drop P (suc n) [] h = tt
  All-drop P (suc n) (x ∷ xs) h = All-drop P n xs h.1

  All-unkept :
      (Q : Bytes → Type 0) (tag : Bytes) (xs : List ImageSummary)
      → All (λ x. Q x.id) xs
      → All Q (unkept 0 tag xs)
  All-unkept Q tag [] h = tt
  All-unkept Q tag (x ∷ xs) h = elim (Bool-cases (has_tag tag x.repo_tags)) [
    | inl e ↦ rw e (All-unkept Q tag xs h.1)
    | inr e ↦ rw e (h.0, All-unkept Q tag xs h.1)
  ]

  -- No image that a listed container uses, running or stopped, is asked to be removed; `Permutes`
  -- says that the sort loses and adds nothing, `keep` is positive, the reference has a repository,
  -- and both lists are answered.
  pub prune_images-spares_in_use :
      (keep : ℕ) (tag : Bytes) (w : W) (images : List ImageSummary) (containers : List Summary)
      → Permutes sort
      → 0 < keep
      → repo_from_ref tag ≢ []
      → (list_images cli sort (repo_from_ref tag) w).0 ≡ ok images
      → (list_all_containers cli sort (list_images cli sort (repo_from_ref tag) w).2).0
        ≡ ok containers
      → All
          (λ id. in_use containers id ≡ false)
          (removals (prune_images cli sort tag (pos keep) w).1)
  unfolding candidates
  prune_images-spares_in_use keep tag w images containers permutes positive named listed running =
      rw (removals-candidates keep tag w images containers positive named listed running) (
        All-unkept (λ id. in_use containers id ≡ false) tag _
          (All-drop (λ x. in_use containers x.id ≡ false) keep _
            (none_pass used _ (permutes used _ ∙ select_out used images))))
    where
      used : ImageSummary → Bool
      used x = in_use containers x.id
