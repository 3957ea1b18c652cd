-- ===== src/Hs/Tests.antt =====
-- The choice of nodes at a concrete ring, with a sum in place of the hash.
use rust_tor_proxy.Prelude.{
  ℕ, ◌+◌, ◌*◌, ◌%◌, List, [], ◌∷◌, ◌≡◌, refl, arith, none, some, ok, replicate, codes, as_bytes,
}
use rust_tor_proxy.Hs.Ring.{TimePeriod, build_ring, responsible}
use rust_tor_proxy.Hs.Address.{is_onion, to_string, classify, onion, slice_from}
use rust_tor_proxy.Hs.Address.Printed.{IsDigest32, parse-to_string}
use rust_tor_proxy.Hs.Address.Checked.{IsChecked, parse-IsChecked, classify-to_string}
use rust_tor_proxy.Hs.Chosen.{IsSelection, responsible-IsSelection}

abbrev sum : List ℕ → ℕ
sum [] = 0
sum (x ∷ xs) = x + sum xs

abbrev toy_hash : List ℕ → List ℕ
toy_hash bytes = (sum bytes % 256) ∷ []

abbrev today : TimePeriod
today = record { number = 19000; length = 1440 }

abbrev nodes : List (ℕ × List ℕ)
nodes = (11, 5 ∷ []) ∷ (12, 60 ∷ []) ∷ (13, 120 ∷ []) ∷ (14, 200 ∷ []) ∷ []

responsible-IsSelection_example :
    IsSelection
      (build_ring toy_hash nodes (1 ∷ []) today)
      (2 * 3)
      (responsible toy_hash (build_ring toy_hash nodes (1 ∷ []) today) (7 ∷ []) today 2 3)
responsible-IsSelection_example =
    responsible-IsSelection toy_hash (build_ring toy_hash nodes (1 ∷ []) today) (7 ∷ []) today 2 3

abbrev zeros : List ℕ → List ℕ
zeros input = replicate 32 0

zeros-IsDigest32 : IsDigest32 zeros
zeros-IsDigest32 = record { size = λ input. refl; bytes = λ input. ground arith }

abbrev key : List ℕ
key = replicate 32 7

parse-IsChecked_example : IsChecked zeros (to_string zeros key) key
parse-IsChecked_example =
    parse-IsChecked zeros (to_string zeros key) key
      (parse-to_string zeros zeros-IsDigest32 key refl (ground arith))

classify-to_string_example : classify zeros (to_string zeros key) ≡ some (ok (onion key))
classify-to_string_example = classify-to_string zeros zeros-IsDigest32 key refl (ground arith)

-- A host name whose sixth byte from the end lies within a character: `is_onion` panics.
is_onion-accent : is_onion (233 ∷ codes "aaaaa") ≡ none
unfolding is_onion slice_from as_bytes
is_onion-accent = refl
