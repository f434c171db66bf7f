-- ===== src/Image/Names.antt =====
-- What the functions of `Image` compute from the parts of a reference.

use rollhook.Prelude.{
  ℕ, ◌+◌, ◌≡◌, subst, sym, ◌⊎◌, inl, inr, Option, none, some, [], ◌∷◌, ◌++◌, arith, All-append,
  append_assoc, append-nil, length, take, take-append, drop-append, drop-append_suc, length-append,
}
use rollhook.Text.{Bytes, Lacks, last_index}
use rollhook.Text.Index.{index-Lacks, index-append, last_index-Lacks, last_index-append}
use rollhook.Image.{before_first, after_slash, cut_tag, repo_from_ref, base_name, extract_app}
use rollhook.Image.Reference.{
  Reference, IsReference, IsDir, print, tag_text, digest_text, reference_of,
}

before_first-Lacks : (c : ℕ) (s : Bytes) → Lacks c s → before_first c s ≡ s
unfolding before_first
before_first-Lacks c s h = ground (arith, index-Lacks c s h)

before_first-append : (c : ℕ) (p r : Bytes) → Lacks c p → before_first c (p ++ c ∷ r) ≡ p
unfolding before_first
before_first-append c p r h = ground (arith, index-append c p r h, take-append p (c ∷ r))

before_first-digest :
    (p : Bytes) (o : Option Bytes) → Lacks b'@' p → before_first b'@' (p ++ digest_text o) ≡ p
before_first-digest p none h = rw append-nil (before_first-Lacks b'@' p h)
before_first-digest p (some d) h = before_first-append b'@' p d h

-- The last slash of a text is the end of its directory.
start_of_name :
    (d s : Bytes) → IsDir d → Lacks b'/' s → after_slash (last_index b'/' (d ++ s)) ≡ length d
start_of_name d s (inl e) h = rw (e, last_index-Lacks b'/' s h)
start_of_name d s (inr (q, e)) h =
    rw (e, append_assoc q (b'/' ∷ []) s, last_index-append b'/' q s h)
      (omega (arith, length-append q (b'/' ∷ [])))

take-append_add : (d n s : Bytes) → take (length d + length n) (d ++ (n ++ s)) ≡ d ++ n
take-append_add d n s = rw (← length-append d n, ← append_assoc d n s) (take-append (d ++ n) s)

cut_tag_lem :
    (d n : Bytes) (t : Option Bytes)
    → Lacks b':' n
    → cut_tag (d ++ (n ++ tag_text t)) (length d) ≡ d ++ n
unfolding cut_tag
cut_tag_lem d n none h = rw append-nil (ground (arith, drop-append d n, index-Lacks b':' n h))
cut_tag_lem d n (some t) h =
    ground (
      arith,
      drop-append d (n ++ b':' ∷ t),
      index-append b':' n t h,
      take-append_add d n (b':' ∷ t),
    )

-- The repository of a well-formed reference is its directory and name, whatever tag and digest
-- stand behind.
pub repo_from_ref-print :
    (r : Reference) → IsReference r → repo_from_ref (print r) ≡ r.dir ++ r.name
unfolding repo_from_ref
repo_from_ref-print r v =
    rw
      (
        ← append_assoc r.name (tag_text r.tag) (digest_text r.digest),
        ← append_assoc r.dir (r.name ++ tag_text r.tag) (digest_text r.digest),
        before_first-digest (r.dir ++ (r.name ++ tag_text r.tag)) r.digest plain,
        start_of_name r.dir (r.name ++ tag_text r.tag) v.dir_ends
            (All-append _ r.name _ v.name_slash v.tag_slash),
      )
      (cut_tag_lem r.dir r.name r.tag v.name_colon)
  where
    plain : Lacks b'@' (r.dir ++ (r.name ++ tag_text r.tag))
    plain = All-append _ r.dir _ v.dir_at (All-append _ r.name _ v.name_at v.tag_at)

base_name_lem : (d s : Bytes) → IsDir d → Lacks b'/' s → base_name (d ++ s) ≡ s
unfolding base_name
base_name_lem d s (inl e) h = rw e (ground (arith, last_index-Lacks b'/' s h))
base_name_lem d s (inr (q, e)) h =
    rw (e, append_assoc q (b'/' ∷ []) s)
      (ground (arith, last_index-append b'/' q s h, drop-append_suc q b'/' s))

repo_from_ref_again :
    (r : Reference)
    → IsReference r
    → repo_from_ref (repo_from_ref (print r)) ≡ repo_from_ref (print r)
repo_from_ref_again r v = rw (repo_from_ref-print r v) (
    subst (λ x. repo_from_ref (r.dir ++ x) ≡ r.dir ++ r.name) (append-nil r.name)
      (repo_from_ref-print bare bare-IsReference))
  where
    bare : Reference
    bare = record r { tag = none; digest = none }

    bare-IsReference : IsReference bare
    bare-IsReference = record {
      dir_ends = v.dir_ends;
      dir_at = v.dir_at;
      name_slash = v.name_slash;
      name_colon = v.name_colon;
      name_at = v.name_at;
      tag_slash = tt;
      tag_at = tt;
    }

-- For every text, the repository of its repository is that repository: nothing is left to strip.
pub repo_from_ref_idempotent : (s : Bytes) → repo_from_ref (repo_from_ref s) ≡ repo_from_ref s
repo_from_ref_idempotent s =
    let (r, v, e) = reference_of s in
    subst (λ x. repo_from_ref (repo_from_ref x) ≡ repo_from_ref x) e (repo_from_ref_again r v)

-- A tag stands behind the name, or no digest does.
abbrev pub HasTag : Reference → Type 0
HasTag r = ((t : Bytes) × (r.tag ≡ some t)) ⊎ (r.digest ≡ none)

before_first-tag :
    (n : Bytes) (t d : Option Bytes)
    → Lacks b':' n
    → ((x : Bytes) × (t ≡ some x)) ⊎ (d ≡ none)
    → before_first b':' (n ++ (tag_text t ++ digest_text d)) ≡ n
before_first-tag n (some t) d h k = before_first-append b':' n (t ++ digest_text d) h
before_first-tag n none none h k = rw append-nil (before_first-Lacks b':' n h)
before_first-tag n none (some d) h (inl (x, e)) = cc
before_first-tag n none (some d) h (inr e) = cc

name_rest-Lacks :
    (r : Reference)
    → IsReference r
    → Lacks b'/' (digest_text r.digest)
    → Lacks b'/' (r.name ++ (tag_text r.tag ++ digest_text r.digest))
name_rest-Lacks r v k =
    All-append _ r.name _ v.name_slash (All-append _ (tag_text r.tag) _ v.tag_slash k)

extract_app-print :
    (r : Reference)
    → IsReference r
    → HasTag r
    → Lacks b'/' (digest_text r.digest)
    → extract_app (print r) ≡ r.name
unfolding extract_app
extract_app-print r v h k =
    rw (base_name_lem r.dir _ v.dir_ends (name_rest-Lacks r v k))
      (before_first-tag r.name r.tag r.digest v.name_colon h)

-- With a tag, or with no digest, the app of a job is the base name that discovery looks for, for a
-- well-formed reference whose digest holds no slash.
pub extract_app-eq-base_name :
    (r : Reference)
    → IsReference r
    → HasTag r
    → Lacks b'/' (digest_text r.digest)
    → extract_app (print r) ≡ base_name (repo_from_ref (print r))
extract_app-eq-base_name r v h k =
    rw (extract_app-print r v h k, repo_from_ref-print r v)
      (sym (base_name_lem r.dir r.name v.dir_ends v.name_slash))

-- With a digest and no tag, in a well-formed reference whose digest holds no slash, the app keeps
-- the digest's algorithm: `app@sha256` for `app@sha256:…`.
pub extract_app-digest :
    (r : Reference) (algorithm hex : Bytes)
    → IsReference r
    → r.tag ≡ none
    → r.digest ≡ some (algorithm ++ b':' ∷ hex)
    → Lacks b':' algorithm
    → Lacks b'/' (digest_text r.digest)
    → extract_app (print r) ≡ base_name (repo_from_ref (print r)) ++ b'@' ∷ algorithm
unfolding extract_app
extract_app-digest r algorithm hex v no_tag digest plain k =
    rw
      (
        repo_from_ref-print r v,
        base_name_lem r.dir r.name v.dir_ends v.name_slash,
        base_name_lem r.dir _ v.dir_ends (name_rest-Lacks r v k),
        no_tag,
        digest,
        ← append_assoc r.name (b'@' ∷ algorithm) (b':' ∷ hex),
      )
      (before_first-append b':' (r.name ++ b'@' ∷ algorithm) hex
        (All-append _ r.name _ v.name_colon (omega arith, plain)))
