-- ===== src/Notifier/Otlp/Parsed.antt =====
-- The headers that are parsed are those that were written.
use rollhook.Prelude.{
  ℕ, Option, none, some, List, [], ◌∷◌, ◌++◌, map, take-append, drop-append_suc, if◌then◌else◌, ◌≡◌,
  ◌≢◌, refl, sym, ap, ◌∙◌, arith, All, All-append, inl, inr,
}
use rollhook.Text.{Bytes, Lacks, beq, split, join, trim_space}
use rollhook.Text.Equality.{beq-cases, beq_ne}
use rollhook.Text.Index.{index-append}
use rollhook.Text.Split.{split-join}
use rollhook.Notifier.Otlp.{Headers, put, header_of, add_header, add_headers, parse_otlp_headers}

-- A pair as it is written.
abbrev pub print_pair : Bytes × Bytes → Bytes
print_pair (key, val) = key ++ b'=' ∷ val

-- No comma, no space at either end; and in the key no equals sign, and a byte.
abbrev pub IsClean : Bytes × Bytes → Type 0
IsClean (key, val) =
    (key ≢ [])
    × Lacks b'=' key
    × Lacks b',' key
    × Lacks b',' val
    × (trim_space key ≡ key)
    × (trim_space val ≡ val)

abbrev pub put_all : List (Bytes × Bytes) → Headers → Headers
put_all [] out = out
put_all ((key, val) ∷ pairs) out = put_all pairs (put key val out)

if_not_empty :
    (k : Bytes) (p : Bytes × Bytes) → k ≢ [] → (if beq k [] then none else some p) ≡ some p
unfolding beq
if_not_empty [] p ne = absurd (ne refl)
if_not_empty (x ∷ k) p ne = refl

header_of-print :
    (key val : Bytes) → IsClean (key, val) → header_of (key ++ b'=' ∷ val) ≡ some (key, val)
unfolding header_of
header_of-print key val h =
    rw
      (
        header_of,
        index-append b'=' key val h.1,
        take-append key (b'=' ∷ val),
        drop-append_suc key b'=' val,
        h.4,
        h.5,
      )
      (if_not_empty key (key, val) h.0)

add_headers-print :
    (pairs : List (Bytes × Bytes)) (out : Headers)
    → All IsClean pairs
    → add_headers (map print_pair pairs) out ≡ put_all pairs out
unfolding add_headers add_header
add_headers-print [] out h = refl
add_headers-print ((key, val) ∷ pairs) out h =
    ap (λ o. add_headers (map print_pair pairs) (add_header o out)) (header_of-print key val h.0)
    ∙ add_headers-print pairs (put key val out) h.1

Lacks-append : (c : ℕ) (s t : Bytes) → Lacks c s → Lacks c t → Lacks c (s ++ t)
Lacks-append c s t hs ht = All-append (λ x. x ≢ c) s t hs ht

Lacks-print : (p : Bytes × Bytes) → IsClean p → Lacks b',' (print_pair p)
Lacks-print (key, val) h = Lacks-append b',' key (b'=' ∷ val) h.2 (λ e. ground (arith, e), h.3)

-- What `GET` of the map finds.
abbrev pub lookup : Bytes → Headers → Option Bytes
lookup key [] = none
lookup key ((k, v) ∷ rest) = let found = lookup key rest in if beq k key then some v else found

-- The last value written for a key.
abbrev pub last_value : Bytes → List (Bytes × Bytes) → Option Bytes → Option Bytes
last_value key [] found = found
last_value key ((k, v) ∷ pairs) found = last_value key pairs (if beq k key then some v else found)

lookup-put :
    (key k v : Bytes) (out : Headers)
    → lookup key (put k v out) ≡ (if beq k key then some v else lookup key out)
unfolding put
lookup-put key k v [] = refl
lookup-put key k v ((k', v') ∷ out) = elim (beq-cases k' k) [
  | inl (e, same) ↦ rw e (ground (arith, ap (λ x. beq x key) same))
  | inr (e, differs) ↦ rw e (elim (beq-cases k' key) [
    | inl (f, same) ↦ rw (f, beq_ne k key (λ g. differs (same ∙ sym g))) refl
    | inr (f, _) ↦ rw f (lookup-put key k v out)
  ])
]

lookup-put_all :
    (key : Bytes) (pairs : List (Bytes × Bytes)) (out : Headers)
    → lookup key (put_all pairs out) ≡ last_value key pairs (lookup key out)
lookup-put_all key [] out = refl
lookup-put_all key ((k, v) ∷ pairs) out =
    lookup-put_all key pairs (put k v out) ∙ ap (last_value key pairs) (lookup-put key k v out)

All-print :
    (pairs : List (Bytes × Bytes)) → All IsClean pairs → All (Lacks b',') (map print_pair pairs)
All-print [] h = tt
All-print (p ∷ pairs) h = (Lacks-print p h.0, All-print pairs h.1)

not_empty : (raw : Bytes) → raw ≢ [] → parse_otlp_headers raw ≡ add_headers (split b',' raw) []
unfolding parse_otlp_headers beq
not_empty [] ne = absurd (ne refl)
not_empty (x ∷ raw) ne = refl

join-ne-nil :
    (p : Bytes × Bytes) (pairs : List (Bytes × Bytes))
    → IsClean p
    → join b',' (map print_pair (p ∷ pairs)) ≢ []
unfolding join
join-ne-nil ([], val) pairs h e = h.0 refl
join-ne-nil (x ∷ key, val) [] h e = cc
join-ne-nil (x ∷ key, val) (q ∷ pairs) h e = cc

-- Pairs without commas and outer spaces, with keys that are not empty and have no equals sign, are
-- parsed back from their text: the headers have the last value that is written for each key, and no
-- other key.
pub parse_otlp_headers-print :
    (p : Bytes × Bytes) (pairs : List (Bytes × Bytes)) (key : Bytes)
    → All IsClean (p ∷ pairs)
    → lookup key (parse_otlp_headers (join b',' (map print_pair (p ∷ pairs))))
      ≡ last_value key (p ∷ pairs) none
unfolding parse_otlp_headers
parse_otlp_headers-print p pairs key h =
    ap (lookup key) (not_empty (join b',' (map print_pair (p ∷ pairs))) (join-ne-nil p pairs h.0))
    ∙ ap (λ l. lookup key (add_headers l []))
        (split-join b',' (print_pair p) (map print_pair pairs) (All-print (p ∷ pairs) h))
    ∙ ap (lookup key) (add_headers-print (p ∷ pairs) [] h)
    ∙ lookup-put_all key (p ∷ pairs) []
