-- ===== src/Extensions/Canonical.antt =====
-- src/tor/ntor_v3.rs: the encoding of extension fields is read back, and is the only one that is.
use rust_tor_proxy.Prelude.{
  ℕ, zero, suc, ◌+◌, ◌≤◌, ◌≡◌, refl, ap, sym, ◌∙◌, subst, subst⁻¹, inl, inr, false, List, [], ◌∷◌,
  ◌++◌, append_assoc, length, length-append, get_or, take, drop, take-length_append,
  drop-length_append, take-append-drop, length-take, ltb, u8_max, Result-cases, ok, arith,
  append-nil, All,
}
use rust_tor_proxy.Extensions.{
  Extension, encode_fields, encode_extensions, decode_fields, decode_extensions, at_end,
}

abbrev field : Extension → List ℕ → List ℕ
field e out = e.kind ∷ length e.body ∷ (e.body ++ out)

-- What an encoding that succeeds consists of.
abbrev pub Encoded : List Extension → List ℕ → Type 0
Encoded [] out = out ≡ []
Encoded (e ∷ es) out =
    (length e.body ≤ u8_max) × (rest : List ℕ) × (out ≡ field e rest) × Encoded es rest

encode_fields-Encoded :
    (es : List Extension) (out : List ℕ) → encode_fields es ≡ ok out → Encoded es out
unfolding encode_fields
encode_fields-Encoded [] out h = ground arith
encode_fields-Encoded (e ∷ es) out h = elim (Result-cases (encode_fields es)) [
  | inl (x, bad) ↦ absurd (ground arith)
  | inr (rest, good) ↦ (ground arith, rest, ground arith, encode_fields-Encoded es rest good)
]

Encoded-encode_fields :
    (es : List Extension) (out : List ℕ) → Encoded es out → encode_fields es ≡ ok out
unfolding encode_fields
Encoded-encode_fields [] out h = ap ok (sym h)
Encoded-encode_fields (e ∷ es) out (short, rest, at, h) =
    let next = Encoded-encode_fields es rest h in
    let fits : ltb u8_max (length e.body) ≡ false = ground arith in rw (fits, next, at) refl

decode_field-ok :
    (n : ℕ) (buf : List ℕ) (len : ℕ) (out : List Extension) (left : List ℕ)
    → get_or buf 1 0 ≡ len
    → 2 + len ≤ length buf
    → decode_fields n (drop (2 + len) buf) ≡ ok (out, left)
    → decode_fields (suc n) buf
      ≡ ok (record { kind = get_or buf 0 0; body = take len (drop 2 buf) } ∷ out, left)
unfolding decode_fields
decode_field-ok n buf len out left l h r =
    let header : ltb (length buf) 2 ≡ false = ground arith in
    let whole : ltb (length buf) (2 + len) ≡ false = ground arith in rw (l, header, whole, r) refl

drop-two {ℓ} : {A : Type ℓ} (n : ℕ) (a b : A) (xs : List A) → drop (2 + n) (a ∷ b ∷ xs) ≡ drop n xs
drop-two n a b xs =
    let e : suc (suc n) ≡ 2 + n = omega arith in subst (λ k. drop k (a ∷ b ∷ xs) ≡ drop n xs) e refl

-- The fields of an encoding are read back, whatever follows them.
decode_fields-Encoded :
    (es : List Extension) (out after : List ℕ)
    → Encoded es out
    → decode_fields (length es) (out ++ after) ≡ ok (es, after)
decode_fields-Encoded [] out after h = unfold decode_fields in ap (λ o. ok ([], o ++ after)) h
decode_fields-Encoded (e ∷ es) out after (short, rest, at, h) =
    let n = length e.body in
    let tail = (e.body ++ rest) ++ after in
    let split = append_assoc e.body rest after in
    let body : take n tail ≡ e.body =
      ap (take n) split ∙ take-length_append e.body (rest ++ after) in
    let beyond : drop (2 + n) (e.kind ∷ n ∷ tail) ≡ rest ++ after =
      drop-two n e.kind n tail ∙ ap (drop n) split ∙ drop-length_append e.body (rest ++ after) in
    let next : decode_fields (length es) (drop (2 + n) (e.kind ∷ n ∷ tail)) ≡ ok (es, after) =
      ap (decode_fields (length es)) beyond ∙ decode_fields-Encoded es rest after h in
    ap (λ o. decode_fields (suc (length es)) (o ++ after)) at
    ∙ decode_field-ok (length es) (e.kind ∷ n ∷ tail) n es after refl
        (omega (arith, length-append (e.body ++ rest) after, length-append e.body rest)) next
    ∙ ap (λ b. ok (record { kind = e.kind; body = b } ∷ es, after)) body

-- Extensions that are encoded are decoded to themselves.
pub decode_extensions-encode_extensions :
    (exts : List Extension) (out : List ℕ)
    → encode_extensions exts ≡ ok out
    → decode_extensions out ≡ ok exts
decode_extensions-encode_extensions exts out h = elim (Result-cases (encode_fields exts)) [
  | inl (x, bad) ↦ absurd (unfold encode_extensions in ground arith)
  | inr (fields, good) ↦
      let at : out ≡ length exts ∷ fields = unfold encode_extensions in ground arith in
      let read = decode_fields-Encoded exts fields [] (encode_fields-Encoded exts fields good) in
      let read' : decode_fields (length exts) fields ≡ ok (exts, []) =
        ap (decode_fields (length exts)) (sym (append-nil fields)) ∙ read in
      rw at (unfold decode_extensions in rw read' refl)
]

All-drop {ℓ κ} : {A : Type ℓ} (P : A → Type κ) (n : ℕ) (xs : List A) → All P xs → All P (drop n xs)
All-drop P zero xs h = h
All-drop P (suc n) [] h = h
All-drop P (suc n) (x ∷ xs) h = All-drop P n xs h.1

-- What a field that is decoded consists of.
decode_field-inv :
    (n kind len : ℕ) (buf : List ℕ) (es : List Extension) (left : List ℕ)
    → decode_fields (suc n) (kind ∷ len ∷ buf) ≡ ok (es, left)
    → (len ≤ length buf)
      × (out : List Extension) × (decode_fields n (drop len buf) ≡ ok (out, left))
      × (es ≡ record { kind = kind; body = take len buf } ∷ out)
decode_field-inv n kind len buf es left h =
    elim (Result-cases (decode_fields n (drop (2 + len) (kind ∷ len ∷ buf)))) [
      | inl (x, bad) ↦ absurd (unfold decode_fields in ground arith)
      | inr ((out, rest), good) ↦
          let same : rest ≡ left = unfold decode_fields in ground arith in
          (
            unfold decode_fields in ground arith,
            out,
            ap (decode_fields n) (sym (drop-two len kind len buf))
                ∙ good
                ∙ ap (λ r. ok (out, r)) same,
            unfold decode_fields in ground arith,
          )
    ]

-- What `decode_fields` reads is the encoding of what it returns.
decode_fields_sound :
    (n : ℕ) (buf : List ℕ) (es : List Extension) (left : List ℕ)
    → All (λ b. b ≤ u8_max) buf
    → decode_fields n buf ≡ ok (es, left)
    → (length es ≡ n) × (out : List ℕ) × Encoded es out × (buf ≡ out ++ left)
decode_fields_sound zero buf es left bytes h =
    let none : es ≡ [] = unfold decode_fields in ground arith in
    let all : buf ≡ left = unfold decode_fields in ground arith in
    (ap length none, [], subst⁻¹ (λ x. Encoded x []) none refl, all)
decode_fields_sound (suc n) [] es left bytes h = absurd (unfold decode_fields in ground arith)
decode_fields_sound (suc n) (k ∷ []) es left bytes h = absurd (unfold decode_fields in ground arith)
decode_fields_sound (suc n) (k ∷ l ∷ buf) es left (small, (short, bytes)) h =
    let (long, es', next, e) = decode_field-inv n k l buf es left h in
    let (count, out, encoded, split) =
      decode_fields_sound n (drop l buf) es' left (All-drop (λ b. b ≤ u8_max) l buf bytes) next in
    let head : Extension = record { kind = k; body = take l buf } in
    let len : length (take l buf) ≡ l = omega (arith, length-take l buf) in
    (
      ap length e ∙ ap suc count,
      field head out,
      subst⁻¹ (λ x. Encoded x (field head out)) e (omega arith, out, refl, encoded),
      ap (λ r. k ∷ l ∷ r) (sym (take-append-drop l buf) ∙ ap (λ r. take l buf ++ r) split)
          ∙ ap (λ m. k ∷ m ∷ (take l buf ++ (out ++ left))) (sym len)
          ∙ ap (λ r. k ∷ length (take l buf) ∷ r) (sym (append_assoc (take l buf) out left)),
    )

-- A list of bytes that is decoded is the encoding of the extensions that it gives: there is no other
-- encoding of them.
pub encode_extensions-decode_extensions :
    (buf : List ℕ) (exts : List Extension)
    → All (λ b. b ≤ u8_max) buf
    → decode_extensions buf ≡ ok exts
    → encode_extensions exts ≡ ok buf
encode_extensions-decode_extensions [] exts bytes h =
    absurd (unfold decode_extensions in ground arith)
encode_extensions-decode_extensions (count ∷ rest) exts (small, bytes) h =
    elim (Result-cases (decode_fields count rest)) [
      | inl (x, bad) ↦ absurd (unfold decode_extensions in ground arith)
      | inr ((es, left), good) ↦
          let (n, out, encoded, split) = decode_fields_sound count rest es left bytes good in
          let ended : at_end es left ≡ ok exts = unfold decode_extensions in ground arith in
          finish es left out n encoded split ended
    ]
  where
    finish :
        (es : List Extension) (left out : List ℕ)
        → length es ≡ count
        → Encoded es out
        → rest ≡ out ++ left
        → at_end es left ≡ ok exts
        → encode_extensions exts ≡ ok (count ∷ rest)
    finish es (b ∷ left) out n encoded split ended = absurd (ground arith)
    finish es [] out n encoded split ended =
        let same : es ≡ exts = ground arith in
        let fields : encode_fields es ≡ ok rest =
          Encoded-encode_fields es out encoded ∙ ap ok (sym (split ∙ append-nil out)) in
        let fits : ltb u8_max (length es) ≡ false = ground arith in
        subst (λ x. encode_extensions x ≡ ok (count ∷ rest)) same
          (unfold encode_extensions in rw (fits, fields) (ap (λ c. ok (c ∷ rest)) n))
