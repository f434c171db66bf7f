-- ===== src/Registry/Tokens.antt =====
-- What a registry token is good for.
use rollhook.Prelude.{
  ℕ, suc, ◌+◌, ◌≤◌, Bool, true, false, not, ◌&&◌, Option, none, some, [], ◌∷◌, ◌++◌, ltb,
  if◌then◌else◌, take, drop, length, ℤ, pos, negsuc, ◌≡◌, ◌≢◌, refl, ap, ◌∙◌, Bool-cases,
  Option-cases, inl, inr, arith, take-append, drop-append_suc,
}
use rollhook.Text.{Bytes, beq, Lacks}
use rollhook.Text.Equality.{beq-cases, beq_self}
use rollhook.Text.Index.{index-append, last_index-append}
use rollhook.Text.Number.{parse_int}
use rollhook.Registry.{
  Crypto, Token, registry_token_ttl, named, read_token, expiry_text, expired, mint_registry_token,
  decode_registry_token, is_fresh_and_signed, validate_registry_token,
  validate_registry_token_for_repo,
}

read_token-print :
    (expiry name mac : Bytes)
    → Lacks b':' expiry
    → Lacks b':' mac
    → read_token ((expiry ++ b':' ∷ name) ++ b':' ∷ mac)
      ≡ some (record { image_name = name; rest = expiry ++ b':' ∷ name; mac = mac })
unfolding read_token named
read_token-print expiry name mac he hm =
    ap (λ o. elim o [ none ↦ none | some i ↦ named (take i whole) (drop (suc i) whole) ])
      (last_index-append b':' rest mac hm)
    ∙ ap (λ r. named r (drop (suc (length rest)) whole)) (take-append rest (b':' ∷ mac))
    ∙ ap (named rest) (drop-append_suc rest b':' mac)
    ∙ ap
        (λ o. elim o [
          | none ↦ none
          | some i ↦ some (record { image_name = drop (suc i) rest; rest = rest; mac = mac })
        ])
        (index-append b':' expiry name he)
    ∙ ap (λ n. some (record { image_name = n; rest = rest; mac = mac }))
        (drop-append_suc expiry b':' name)
  where
    rest : Bytes
    rest = expiry ++ b':' ∷ name

    whole : Bytes
    whole = rest ++ b':' ∷ mac

expiry_text-print :
    (expiry name : Bytes) → Lacks b':' expiry → expiry_text (expiry ++ b':' ∷ name) ≡ expiry
unfolding expiry_text
expiry_text-print expiry name he =
    rw (index-append b':' expiry name he, take-append expiry (b':' ∷ name), expiry_text) refl

-- The documented behaviour of the encoders: base64 reads what it wrote, and the code is hex.
pub record IsCodec (crypto : Crypto) : Type 0 where
  pub decode_url-encode_url : (s : Bytes) → crypto.decode_url (crypto.encode_url s) ≡ some s
  pub hmac-Lacks : (key message : Bytes) → Lacks b':' (crypto.hmac key message)

-- The number is printed in digits that are read as that number.
pub record IsPrinted (crypto : Crypto) (n : ℕ) : Type 0 where
  pub format_int-Lacks : Lacks b':' (crypto.format_int n)
  pub parse_int-format_int : parse_int (crypto.format_int n) ≡ some (pos n)

module _ (crypto : Crypto) where
  -- The token that `mint_registry_token` makes, as it is read.
  abbrev pub minted : ℕ → Bytes → Bytes → Token
  minted now secret name = record {
    image_name = name;
    rest = crypto.format_int (now + registry_token_ttl) ++ b':' ∷ name;
    mac = crypto.hmac secret (crypto.format_int (now + registry_token_ttl) ++ b':' ∷ name);
  }

  -- Reading a minted token gives back its image name, its signed text and its code.
  pub decode_registry_token-mint :
      (now : ℕ) (secret name : Bytes)
      → IsCodec crypto
      → IsPrinted crypto (now + registry_token_ttl)
      → decode_registry_token crypto (mint_registry_token crypto now secret name)
        ≡ some (minted now secret name)
  unfolding decode_registry_token mint_registry_token
  decode_registry_token-mint now secret name codec printed =
      ap (λ o. elim o [ none ↦ none | some s ↦ read_token s ]) (codec.decode_url-encode_url _)
      ∙ read_token-print (crypto.format_int (now + registry_token_ttl)) name _
          (printed.format_int-Lacks) (codec.hmac-Lacks _ _)

  minted-fresh :
      (now later : ℕ) (secret name : Bytes)
      → IsCodec crypto
      → IsPrinted crypto (now + registry_token_ttl)
      → is_fresh_and_signed crypto later secret (minted now secret name)
        ≡ not (ltb (now + registry_token_ttl) later)
  unfolding is_fresh_and_signed expired
  minted-fresh now later secret name codec printed =
      rw
        (
          expiry_text-print (crypto.format_int (now + registry_token_ttl)) name
              (printed.format_int-Lacks),
          printed.parse_int-format_int,
          beq_self
              (crypto.hmac secret (crypto.format_int (now + registry_token_ttl) ++ b':' ∷ name)),
        )
        (and_true (not (ltb (now + registry_token_ttl) later)))
    where
      and_true : (b : Bool) → (b && true) ≡ b
      and_true true = refl
      and_true false = refl

  -- A minted token opens the repository that it names for 15 minutes, and never another one: this
  -- is the answer for any repository with a name, at any second. Base64 reads back what it wrote,
  -- the code is hex, and the expiry is printed in the digits that it is read from.
  pub validate_registry_token_for_repo-mint :
      (now later : ℕ) (secret name repo : Bytes)
      → IsCodec crypto
      → IsPrinted crypto (now + registry_token_ttl)
      → repo ≢ []
      → validate_registry_token_for_repo crypto later secret
          (mint_registry_token crypto now secret name)
          repo
        ≡ (if beq name repo then not (ltb (now + registry_token_ttl) later) else false)
  unfolding validate_registry_token_for_repo
  validate_registry_token_for_repo-mint now later secret name repo codec printed named =
      elim (beq-cases repo []) [
        | inl (_, e) ↦ absurd (named e)
        | inr (b, _) ↦
            rw
              (
                b,
                decode_registry_token-mint now secret name codec printed,
                minted-fresh now later secret name codec printed,
              )
              refl
      ]

  -- What a token is that is taken: its code is the secret's over its text, and it has not expired.
  abbrev pub Genuine : ℕ → Bytes → Bytes → Token → Type 0
  Genuine now secret token t =
      (decode_registry_token crypto token ≡ some t)
      × (t.mac ≡ crypto.hmac secret t.rest)
      × (n : ℕ) × (parse_int (expiry_text t.rest) ≡ some (pos n))
      × (now ≤ n)

  expired-false :
      (now : ℕ) (e : Option ℤ) → expired now e ≡ false → (n : ℕ) × (e ≡ some (pos n)) × (now ≤ n)
  unfolding expired
  expired-false now none h = ground (arith, h)
  expired-false now (some (pos n)) h = (n, refl, ground (arith, h))
  expired-false now (some (negsuc n)) h = ground (arith, h)

  fresh_and_signed :
      (now : ℕ) (secret token : Bytes) (t : Token)
      → decode_registry_token crypto token ≡ some t
      → is_fresh_and_signed crypto now secret t ≡ true
      → Genuine now secret token t
  unfolding is_fresh_and_signed
  fresh_and_signed now secret token t d h =
      elim (Bool-cases (expired now (parse_int (expiry_text t.rest)))) [
        | inl x ↦ ground (arith, h, x)
        | inr x ↦ elim (beq-cases t.mac (crypto.hmac secret t.rest)) [
          | inl (_, e) ↦ let (n, p, le) = expired-false now _ x in (d, e, n, p, le)
          | inr (b, _) ↦ ground (arith, h, x, b)
        ]
      ]

  pub validate_registry_token-Genuine :
      (now : ℕ) (secret token : Bytes)
      → validate_registry_token crypto now secret token ≡ true
      → (t : Token) × Genuine now secret token t
  unfolding validate_registry_token
  validate_registry_token-Genuine now secret token h =
      elim (Option-cases (decode_registry_token crypto token)) [
        | inl d ↦ ground (arith, h, d)
        | inr (t, d) ↦ (t, fresh_and_signed now secret token t d (ground (arith, h, d)))
      ]

  pub validate_registry_token_for_repo-Genuine :
      (now : ℕ) (secret token repo : Bytes)
      → validate_registry_token_for_repo crypto now secret token repo ≡ true
      → (t : Token) × Genuine now secret token t × (t.image_name ≡ repo)
  unfolding validate_registry_token_for_repo
  validate_registry_token_for_repo-Genuine now secret token repo h = elim (beq-cases repo []) [
    | inl (b, _) ↦ ground (arith, h, b)
    | inr (b, _) ↦ elim (Option-cases (decode_registry_token crypto token)) [
      | inl d ↦ ground (arith, h, b, d)
      | inr (t, d) ↦ elim (beq-cases t.image_name repo) [
        | inr (x, _) ↦ ground (arith, h, b, d, x)
        | inl (x, e) ↦ (t, fresh_and_signed now secret token t d (ground (arith, h, b, d, x)), e)
      ]
    ]
  ]
