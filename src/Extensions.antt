-- ===== src/Extensions.antt =====
-- src/tor/ntor_v3.rs, `encode_extensions` and `decode_extensions`: the extension fields of a
-- handshake. A buffer is the list of its bytes.
pub mod Canonical
mod Tests
use rust_tor_proxy.Prelude.{
  ℕ, zero, suc, ◌+◌, Bool, List, [], ◌∷◌, ◌++◌, length, get_or, take, drop, ltb, u8_max,
  if◌then◌else◌, Result, ok, err, invalid_data, ◌>>=◌,
}

pub record Extension : Type 0 where
  pub kind : ℕ
  pub body : List ℕ

-- The loop of `encode_extensions`.
unfoldable pub encode_fields : List Extension → Result (List ℕ)
encode_fields [] = ok []
encode_fields (e ∷ es) =
    let rest = encode_fields es in
    if ltb u8_max (length e.body)
    then err (invalid_data "handshake extension body is over 255 bytes")
    else (do out ← rest; ok (e.kind ∷ length e.body ∷ (e.body ++ out)))

-- `encode_extensions`
unfoldable pub encode_extensions : List Extension → Result (List ℕ)
encode_extensions exts =
    if ltb u8_max (length exts)
    then err (invalid_data "too many handshake extensions for one byte")
    else (do out ← encode_fields exts; ok (length exts ∷ out))

-- The loop of `decode_extensions`: the fields, and what is left of the buffer.
unfoldable pub decode_fields : ℕ → List ℕ → Result (List Extension × List ℕ)
decode_fields zero rest = ok ([], rest)
decode_fields (suc n) rest =
    let len = get_or rest 1 0 in
    let next = decode_fields n (drop (2 + len) rest) in
    if ltb (length rest) 2
    then err (invalid_data "truncated handshake extension header")
    else if ltb (length rest) (2 + len)
    then err (invalid_data "truncated handshake extension body")
    else (do
      (out, left) ← next
      ok (record { kind = get_or rest 0 0; body = take len (drop 2 rest) } ∷ out, left))

abbrev at_end : List Extension → List ℕ → Result (List Extension)
at_end out [] = ok out
at_end out (b ∷ left) = err (invalid_data "trailing bytes after the handshake extensions")

-- `decode_extensions`
unfoldable pub decode_extensions : List ℕ → Result (List Extension)
decode_extensions [] = err (invalid_data "handshake extension list is empty")
decode_extensions (count ∷ rest) = do (out, left) ← decode_fields count rest; at_end out left
