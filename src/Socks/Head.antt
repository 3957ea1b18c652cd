-- ===== src/Socks/Head.antt =====
-- src/socks5.rs, `read_http_head`: how much of the connection the head of a request may take.
use rust_tor_proxy.Prelude.{
  ℕ, ◌+◌, ◌≤◌, ◌≡◌, refl, sym, ◌∙◌, List, [], ◌∷◌, ◌++◌, append_assoc, length, length-append, leb,
  Bool-cases, inl, inr, codes, ok, arith,
}
use rust_tor_proxy.Socks.{max_http_header_bytes}
use rust_tor_proxy.Socks.Http.{head_from, ends_with}

-- A head that is read is the front of what the client sends, byte for byte, and is never longer than
-- the limit.
pub head_from-bounded :
    (head input found left : List ℕ)
    → length head ≤ max_http_header_bytes
    → head_from head input ≡ (ok found, left)
    → (length found ≤ max_http_header_bytes) × (head ++ input ≡ found ++ left)
head_from-bounded head [] found left h e =
    let same : head ≡ found = unfold head_from in ground arith in
    let none : left ≡ [] = unfold head_from in ground arith in rw (← same, none) (h, refl)
head_from-bounded head (b ∷ bs) found left h e =
    let grown = head ++ (b ∷ []) in
    let glued : grown ++ bs ≡ head ++ (b ∷ bs) = append_assoc head (b ∷ []) bs in
    let longer : length grown ≡ length head + 1 = length-append head (b ∷ []) in
    elim (Bool-cases (ends_with (codes "\r\n\r\n") head)) [
      | inl done ↦
          let same : head ≡ found = unfold head_from in ground arith in
          let rest : b ∷ bs ≡ left = unfold head_from in ground arith in
          rw (← same, ← rest) (h, refl)
      | inr more ↦ elim (Bool-cases (leb max_http_header_bytes (length head))) [
        | inl full ↦ absurd (unfold head_from in ground arith)
        | inr room ↦
            let fits : length grown ≤ max_http_header_bytes = ground arith in
            elim (Bool-cases (ends_with (codes "\n\n") grown)) [
              | inl done ↦
                  let same : grown ≡ found = unfold head_from in ground arith in
                  let rest : bs ≡ left = unfold head_from in ground arith in
                  rw (← same, ← rest) (fits, sym glued)
              | inr again ↦
                  let next : head_from grown bs ≡ (ok found, left) =
                    unfold head_from in ground arith in
                  let (bound, front) = head_from-bounded grown bs found left fits next in
                  (bound, sym glued ∙ front)
            ]
      ]
    ]
