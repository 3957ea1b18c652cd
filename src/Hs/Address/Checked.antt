-- ===== src/Hs/Address/Checked.antt =====
-- src/tor/hs/address.rs: what an accepted address was checked for, and where `classify` sends it.
use mathlib.Core.Option.{some-injective}
use rust_tor_proxy.Prelude.{
  ℕ, zero, suc, ◌+◌, ◌≡◌, refl, ap, sym, ◌∙◌, subst, arith, true, Bool-cases, ◌>>=◌, ◌<◌, ap₂,
  append_assoc, inl, inr, Option, none, some, List, [], ◌∷◌, ◌++◌, length, length-take, take, drop,
  get_or, text_eq, ◌==◌, All, Text, ok, bind_ok, ok_injective,
}
use rust_tor_proxy.Encoding.Base32.{decode}
use rust_tor_proxy.Hs.Address.{
  version, checksum, check_raw, parse_body, body_of, with_body, parse, is_onion, to_string,
  classify, onion,
}
use rust_tor_proxy.Hs.Address.Printed.{IsDigest32, parse-to_string, to_string-onion}

text_eq→≡ : (s t : Text) → text_eq s t ≡ true → s ≡ t
unfolding text_eq
text_eq→≡ [] [] h = refl
text_eq→≡ [] (y ∷ t) h = absurd (ground arith)
text_eq→≡ (x ∷ s) [] h = absurd (ground arith)
text_eq→≡ (x ∷ s) (y ∷ t) h =
    let same : x ≡ y = ground arith in let rest = text_eq→≡ s t (ground arith) in rw (same, rest)

split_last : (n : ℕ) (xs : List ℕ) → length xs ≡ suc n → xs ≡ take n xs ++ (get_or xs n 0 ∷ [])
split_last n [] h = absurd (omega arith)
split_last zero (x ∷ []) h = refl
split_last zero (x ∷ y ∷ xs) h = absurd (omega arith)
split_last (suc n) (x ∷ xs) h = ap (λ r. x ∷ r) (split_last n xs (omega arith))

take-take : (m n k : ℕ) (xs : List ℕ) → m + n ≡ k → take m xs ++ take n (drop m xs) ≡ take k xs
take-take zero n k xs e = let same : n ≡ k = omega arith in ap (λ i. take i xs) same
take-take (suc m) n zero xs e = absurd (omega arith)
take-take (suc m) zero (suc k) [] e = refl
take-take (suc m) (suc n) (suc k) [] e = refl
take-take (suc m) n (suc k) (x ∷ xs) e = ap (λ r. x ∷ r) (take-take m n k xs (omega arith))

-- An address that is its key, the key's checksum and the version.
pub record IsChecked (sha3_256 : List ℕ → List ℕ) (host : Text) (key : List ℕ) : Type 0 where
  pub body : Text
  pub body_is : body_of host ≡ some body
  pub decodes : decode body ≡ ok (key ++ (checksum sha3_256 key ++ (version ∷ [])))
  pub size : length key ≡ 32

-- The two parts after the first 32 bytes.
check_raw-ok :
    (sha3_256 : List ℕ → List ℕ) (raw key : List ℕ)
    → check_raw sha3_256 raw ≡ ok key
    → (raw ≡ key ++ (checksum sha3_256 key ++ (version ∷ []))) × (length key ≡ 32)
unfolding check_raw
check_raw-ok sha3_256 raw key h =
    let front = take 32 raw in
    elim (Bool-cases (length raw == 35)) [
      | inr other ↦ absurd (ground arith)
      | inl whole ↦ elim (Bool-cases (get_or raw 34 0 == version)) [
        | inr other ↦ absurd (ground arith)
        | inl three ↦ elim (Bool-cases (text_eq (take 2 (drop 32 raw)) (checksum sha3_256 front))) [
          | inr other ↦ absurd (ground arith)
          | inl summed ↦
              let size : length raw ≡ 35 = ground arith in
              let last : get_or raw 34 0 ≡ version = ground arith in
              let middle = text_eq→≡ _ _ summed in
              let is_key : front ≡ key = ok_injective front key (ground arith) in
              let short = length-take 32 raw in
              let all : raw ≡ front ++ (checksum sha3_256 front ++ (version ∷ [])) =
                split_last 34 raw size
                ∙ ap₂ (λ l b. l ++ (b ∷ [])) (sym (take-take 32 2 34 raw (omega arith))) last
                ∙ append_assoc front (take 2 (drop 32 raw)) (version ∷ [])
                ∙ ap (λ l. front ++ (l ++ (version ∷ []))) middle in
              subst (λ k. (raw ≡ k ++ (checksum sha3_256 k ++ (version ∷ []))) × (length k ≡ 32))
                is_key (all, omega arith)
        ]
      ]
    ]

parse_body-ok :
    (sha3_256 : List ℕ → List ℕ) (body : Text) (key : List ℕ)
    → parse_body sha3_256 body ≡ ok key
    → (decode body ≡ ok (key ++ (checksum sha3_256 key ++ (version ∷ [])))) × (length key ≡ 32)
unfolding parse_body
parse_body-ok sha3_256 body key h =
    let decoded : (decode body >>= λ raw. check_raw sha3_256 raw) ≡ ok key = ground arith in
    let (raw, e, checked) = bind_ok (decode body) (λ raw. check_raw sha3_256 raw) key decoded in
    let (parts, size) = check_raw-ok sha3_256 raw key checked in (e ∙ ap ok parts, size)

with_body-ok :
    (sha3_256 : List ℕ → List ℕ) (body : Option Text) (key : List ℕ)
    → with_body sha3_256 body ≡ some (ok key)
    → (b : Text) × (body ≡ some b) × (parse_body sha3_256 b ≡ ok key)
with_body-ok sha3_256 none key h = absurd (ground arith)
with_body-ok sha3_256 (some b) key h = (b, refl, some-injective _ _ h)

-- An address that `parse` accepts decodes to nothing but its 32 bytes of key, the checksum of these, and the version.
pub parse-IsChecked :
    (sha3_256 : List ℕ → List ℕ) (host : Text) (key : List ℕ)
    → parse sha3_256 host ≡ some (ok key)
    → IsChecked sha3_256 host key
unfolding parse
parse-IsChecked sha3_256 host key h =
    let (body, e, parsed) = with_body-ok sha3_256 (body_of host) key h in
    let (decodes, size) = parse_body-ok sha3_256 body key parsed in
    record { body = body; body_is = e; decodes = decodes; size = size }

-- The address that an onion key is printed as is taken for an onion service, and for the service of that key.
pub classify-to_string :
    (sha3_256 : List ℕ → List ℕ)
    → IsDigest32 sha3_256
    → (key : List ℕ) → length key ≡ 32
    → All (λ b. b < 256) key
    → classify sha3_256 (to_string sha3_256 key) ≡ some (ok (onion key))
unfolding classify
classify-to_string sha3_256 digest key size bytes =
    let host = to_string sha3_256 key in
    let is : is_onion host ≡ some true = to_string-onion sha3_256 digest key size in
    rw (is, parse-to_string sha3_256 digest key size bytes)
