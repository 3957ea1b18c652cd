-- ===== src/Hs/Address/Printed.antt =====
-- src/tor/hs/address.rs: an address that is printed is read back, and is an onion's.
use rust_tor_proxy.Prelude.{
  ℕ, zero, suc, ◌-◌, ◌<◌, ◌≡◌, refl, ap, ◌∙◌, arith, true, ◌&&◌, Bool-cases, some, inl, inr, List,
  [], ◌∷◌, ◌++◌, length, length-append, length-take, All, IsAscii, IsAscii-append, append_assoc,
  subst, Text, codes, text_eq, eq_ignore_ascii_case, ltb, take, drop, take-length_append,
  drop-length_append, get_or, ok,
}
use rust_tor_proxy.Encoding.Base32.{encode}
use rust_tor_proxy.Encoding.Base32.Roundtrip.{decode-encode}
use rust_tor_proxy.Encoding.Base32.Shape.{encode-shape}
use rust_tor_proxy.Hs.Address.{
  suffix, version, byte_length, slice_from, slice_to, is_onion, checksum, to_string, check_raw,
  parse_body, body_of, with_body, parse,
}
use rust_tor_proxy.Hs.Address.Slices.{byte_length-ascii, slice_from-ascii, slice_to-ascii}

-- `is_onion` does not panic on ASCII, and looks at the last six characters of a longer name.
pub is_onion-ascii :
    (host : Text)
    → IsAscii host
    → is_onion host
      ≡ some (ltb 6 (length host) && eq_ignore_ascii_case (drop (length host - 6) host) suffix)
unfolding is_onion
is_onion-ascii host ascii = elim (Bool-cases (ltb 6 (length host))) [
  | inl long ↦ rw (
    byte_length-ascii host ascii,
    long,
    slice_from-ascii host (length host - 6) ascii (omega arith),
  )
  | inr short ↦ rw (byte_length-ascii host ascii, short)
]

-- sha3_256 gives 32 bytes.
pub record IsDigest32 (sha3_256 : List ℕ → List ℕ) : Type 0 where
  pub size : (input : List ℕ) → length (sha3_256 input) ≡ 32
  pub bytes : (input : List ℕ) → All (λ b. b < 256) (sha3_256 input)

All-take : (n : ℕ) (xs : List ℕ) → All (λ b. b < 256) xs → All (λ b. b < 256) (take n xs)
All-take zero xs h = tt
All-take (suc n) [] h = tt
All-take (suc n) (x ∷ xs) (small, h) = (small, All-take n xs h)

All-both :
    (xs ys : List ℕ) → All (λ b. b < 256) xs → All (λ b. b < 256) ys → All (λ b. b < 256) (xs ++ ys)
All-both [] ys h h' = h'
All-both (x ∷ xs) ys (small, h) h' = (small, All-both xs ys h h')

text_eq_refl : (s : Text) → text_eq s s ≡ true
unfolding text_eq
text_eq_refl [] = refl
text_eq_refl (c ∷ s) = ground (arith, text_eq_refl s)

get_or-last : (xs : List ℕ) (b : ℕ) → get_or (xs ++ (b ∷ [])) (length xs) 0 ≡ b
get_or-last [] b = refl
get_or-last (x ∷ xs) b = get_or-last xs b

take_front : (n : ℕ) (xs ys : List ℕ) → length xs ≡ n → take n (xs ++ ys) ≡ xs
take_front n xs ys e = subst (λ m. take m (xs ++ ys) ≡ xs) e (take-length_append xs ys)

drop_front : (n : ℕ) (xs ys : List ℕ) → length xs ≡ n → drop n (xs ++ ys) ≡ ys
drop_front n xs ys e = subst (λ m. drop m (xs ++ ys) ≡ ys) e (drop-length_append xs ys)

get_or_at :
    (n : ℕ) (xs ys : List ℕ) (b : ℕ)
    → length (xs ++ ys) ≡ n
    → get_or (xs ++ (ys ++ (b ∷ []))) n 0 ≡ b
get_or_at n xs ys b e =
    subst (λ m. get_or (xs ++ (ys ++ (b ∷ []))) m 0 ≡ b) e
      (subst (λ l. get_or l (length (xs ++ ys)) 0 ≡ b) (append_assoc xs ys (b ∷ []))
        (get_or-last (xs ++ ys) b))

body_of-append :
    (body : Text) → IsAscii body → length body ≡ 56 → body_of (body ++ suffix) ≡ some body
unfolding body_of
body_of-append body ascii n =
    let host = body ++ suffix in
    let ascii_host : IsAscii host = IsAscii-append body suffix ascii (ground arith) in
    let total : length host ≡ 62 = length-append body suffix ∙ omega arith in
    let whole : byte_length host ≡ 62 = byte_length-ascii host ascii_host ∙ total in
    let ends : slice_from host 56 ≡ some suffix =
      slice_from-ascii host 56 ascii_host (omega arith) ∙ ap some (drop_front 56 body suffix n) in
    let begins : slice_to host 56 ≡ some body =
      slice_to-ascii host 56 ascii_host (omega arith) ∙ ap some (take_front 56 body suffix n) in
    rw (whole, ends, begins)

is_onion-append :
    (body : Text) → IsAscii body → length body ≡ 56 → is_onion (body ++ suffix) ≡ some true
unfolding eq_ignore_ascii_case
is_onion-append body ascii n =
    let host = body ++ suffix in
    let total : length host ≡ 62 = length-append body suffix ∙ omega arith in
    let at : length host - 6 ≡ 56 = omega arith in
    let long : ltb 6 (length host) ≡ true = ground arith in
    is_onion-ascii host (IsAscii-append body suffix ascii (ground arith))
    ∙ rw (long, at, drop_front 56 body suffix n)

module _ (sha3_256 : List ℕ → List ℕ) (digest : IsDigest32 sha3_256) where
  length-checksum : (key : List ℕ) → length (checksum sha3_256 key) ≡ 2
  unfolding checksum
  length-checksum key =
      let input = codes ".onion checksum" ++ (key ++ (version ∷ [])) in
      let size = digest.size input in let taken = length-take 2 (sha3_256 input) in omega arith

  raw_of : List ℕ → List ℕ
  raw_of key = key ++ (checksum sha3_256 key ++ (version ∷ []))

  check_raw-raw_of : (key : List ℕ) → length key ≡ 32 → check_raw sha3_256 (raw_of key) ≡ ok key
  unfolding check_raw raw_of
  check_raw-raw_of key size =
      let sum = checksum sha3_256 key in
      let two = length-checksum key in
      let last_two = sum ++ (version ∷ []) in
      let whole : length (key ++ last_two) ≡ 35 =
        length-append key last_two ∙ (let more = length-append sum (version ∷ []) in omega arith) in
      let front : take 32 (key ++ last_two) ≡ key = take_front 32 key last_two size in
      let back : drop 32 (key ++ last_two) ≡ last_two = drop_front 32 key last_two size in
      let middle : take 2 last_two ≡ sum = take_front 2 sum (version ∷ []) two in
      let last : get_or (key ++ last_two) 34 0 ≡ version =
        get_or_at 34 key sum version (length-append key sum ∙ omega arith) in
      rw (whole, front, back, middle, last, text_eq_refl sum)

  length-raw_of : (key : List ℕ) → length key ≡ 32 → length (raw_of key) ≡ 35
  unfolding raw_of
  length-raw_of key size =
      let sum = checksum sha3_256 key in
      let two = length-checksum key in
      length-append key (sum ++ (version ∷ []))
      ∙ (let more = length-append sum (version ∷ []) in omega arith)

  bytes-raw_of : (key : List ℕ) → All (λ b. b < 256) key → All (λ b. b < 256) (raw_of key)
  unfolding raw_of checksum
  bytes-raw_of key bytes = All-both key _ bytes (
      All-both (checksum sha3_256 key) (version ∷ []) (All-take 2 _ (digest.bytes _))
        (omega arith, tt))

  parse_body-encode :
      (key : List ℕ)
      → length key ≡ 32
      → All (λ b. b < 256) key
      → parse_body sha3_256 (encode (raw_of key)) ≡ ok key
  unfolding parse_body
  parse_body-encode key size bytes =
      let raw = raw_of key in
      let (chars, ascii) = encode-shape raw in
      let raw_size = length-raw_of key size in
      let body_size : byte_length (encode raw) ≡ 56 =
        byte_length-ascii (encode raw) ascii ∙ (chars ∙ omega arith) in
      rw (body_size, decode-encode raw (bytes-raw_of key bytes), check_raw-raw_of key size)

  -- An address that was printed is read back: its suffix is found and cut off, its 56 characters decode, and the version
  -- and the checksum are right.
  pub parse-to_string :
      (key : List ℕ)
      → length key ≡ 32
      → All (λ b. b < 256) key
      → parse sha3_256 (to_string sha3_256 key) ≡ some (ok key)
  unfolding parse to_string raw_of
  parse-to_string key size bytes =
      let raw = raw_of key in
      let (chars, ascii) = encode-shape raw in
      let raw_size = length-raw_of key size in
      ap (λ o. with_body sha3_256 o) (body_of-append (encode raw) ascii (chars ∙ omega arith))
      ∙ ap some (parse_body-encode key size bytes)

  pub to_string-onion :
      (key : List ℕ) → length key ≡ 32 → is_onion (to_string sha3_256 key) ≡ some true
  unfolding to_string raw_of
  to_string-onion key size =
      let raw_size = length-raw_of key size in
      let body = encode (raw_of key) in
      let (chars, ascii) = encode-shape (raw_of key) in
      is_onion-append body ascii (chars ∙ omega arith)
