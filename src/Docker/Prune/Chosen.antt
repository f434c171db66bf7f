-- ===== src/Docker/Prune/Chosen.antt =====
-- The images that a prune chooses, described by their lists.
use rollhook.Prelude.{
  ℕ, suc, ◌-◌, Bool, true, false, not, ◌||◌, List, [], ◌∷◌, ◌++◌, ltb, arith, ◌≡◌, refl, ap, ◌∙◌,
  select, map, drop, if◌then◌else◌, Bool-cases, inl, inr,
}
use rollhook.Text.{Bytes, beq}
use rollhook.Docker.{Summary, ImageSummary}
use rollhook.Docker.Prune.{has_tag, in_use}

-- Is it one of the elements?
abbrev pub elem : Bytes → List Bytes → Bool
elem x [] = false
elem x (y ∷ ys) = beq y x || elem x ys

pub has_tag-elem : (tag : Bytes) (tags : List Bytes) → has_tag tag tags ≡ elem tag tags
unfolding has_tag
has_tag-elem tag [] = refl
has_tag-elem tag (t ∷ tags) = ap (λ b. beq t tag || b) (has_tag-elem tag tags)

pub in_use-elem :
    (containers : List Summary) (id : Bytes)
    → in_use containers id ≡ elem id (map (λ (c : Summary). c.image_id) containers)
unfolding in_use
in_use-elem [] id = refl
in_use-elem (c ∷ cs) id = ap (λ b. beq c.image_id id || b) (in_use-elem cs id)

pub select-ext :
    (p q : ImageSummary → Bool) (xs : List ImageSummary)
    → ((x : ImageSummary) → p x ≡ q x)
    → select p xs ≡ select q xs
select-ext p q [] h = refl
select-ext p q (x ∷ xs) h =
    ap (λ b. if b then x ∷ select p xs else select p xs) (h x)
    ∙ ap (λ l. if q x then x ∷ l else l) (select-ext p q xs h)

-- The images that are the image of no container.
abbrev pub unused : List Summary → List ImageSummary → List ImageSummary
unused containers images =
    select (λ img. not (elem img.id (map (λ (c : Summary). c.image_id) containers))) images

-- The identifiers of the images behind the first `keep` that do not bear the tag.
abbrev pub to_remove : ℕ → Bytes → List ImageSummary → List Bytes
to_remove keep tag images =
    map (λ (img : ImageSummary). img.id)
      (select (λ img. not (elem tag img.repo_tags)) (drop keep images))

-- The identifiers of the images from index `n` on that do not bear the tag.
abbrev pub unkept : ℕ → Bytes → List ImageSummary → List Bytes
unkept n tag images =
    map (λ (img : ImageSummary). img.id)
      (select (λ img. not (has_tag tag img.repo_tags)) (drop n images))

pub unkept_step :
    (i keep : ℕ) (tag : Bytes) (img : ImageSummary) (images : List ImageSummary)
    → (if ltb i keep || has_tag tag img.repo_tags then [] else img.id ∷ [])
        ++ unkept (keep - suc i) tag images
      ≡ unkept (keep - i) tag (img ∷ images)
unkept_step i keep tag img images = elim (Bool-cases (ltb i keep)) [
  | inl e ↦ let s : keep - i ≡ suc (keep - suc i) = ground (arith, e) in rw (e, s)
  | inr e ↦
      let s : keep - i ≡ 0 = ground (arith, e) in
      let s' : keep - suc i ≡ 0 = ground (arith, e) in
      rw (e, s, s') (tagged (has_tag tag img.repo_tags))
]
  where
    tagged :
        (b : Bool)
        → (if b then [] else img.id ∷ []) ++ unkept 0 tag images
          ≡ map
              (λ (x : ImageSummary). x.id)
              (if not b
                then img ∷ select (λ x. not (has_tag tag x.repo_tags)) images
                else select (λ x. not (has_tag tag x.repo_tags)) images)
    tagged true = refl
    tagged false = refl
