-- ===== src/Relay/Control.antt =====
-- The queue of control replies: bounded, first in first out for each command.
use rust_tor_proxy.Prelude.{
  ℕ, suc, ◌≤◌, ◌≡◌, arith, Bool-cases, inl, inr, false, ◌==◌, leb, if◌then◌else◌, Option, none,
  some, List, [], ◌∷◌, length, length-append,
}
use rust_tor_proxy.Relay.Circuit.{push_control, take_control}

-- The replies to one command, oldest first.
abbrev pub replies : ℕ → List (ℕ × List ℕ) → List (List ℕ)
replies relay_command [] = []
replies relay_command ((command, message) ∷ control) =
    let rest = replies relay_command control in
    if command == relay_command then message ∷ rest else rest

abbrev pub from_reply : Option (List ℕ) → List (List ℕ) → List (List ℕ)
from_reply none rest = rest
from_reply (some message) rest = message ∷ rest

pub length-push_control :
    (relay_command : ℕ) (message : List ℕ) (control : List (ℕ × List ℕ))
    → length control ≤ 16
    → length (push_control relay_command message control) ≤ 16
unfolding push_control
length-push_control c message [] h = ground arith
length-push_control c message (r ∷ control) h = elim (Bool-cases (leb 16 (suc (length control)))) [
  | inl full ↦ rw (full, length-append control ((c, message) ∷ [])) (omega arith)
  | inr room ↦ rw (room, length-append control ((c, message) ∷ [])) (ground arith)
]

-- Taking a reply takes the oldest to that command, if there is one, and leaves the replies to every other
-- command as they were.
pub take_control-replies :
    (relay_command asked : ℕ) (control : List (ℕ × List ℕ))
    → let (found, left) = take_control asked control in
      (if relay_command == asked
        then from_reply found (replies relay_command left)
        else replies relay_command left)
      ≡ replies relay_command control
unfolding take_control
take_control-replies d c [] = ground arith
take_control-replies d c ((command, message) ∷ control) =
    let ih = take_control-replies d c control in
    elim (Bool-cases (command == c)) [
      | inl same ↦ rw (same) (ground arith)
      | inr differs ↦ elim (Bool-cases (d == c)) [
        | inl asked ↦
            let elsewhere : (command == d) ≡ false = ground arith in rw (differs, elsewhere) ih
        | inr other ↦
            let ih' : replies d (take_control c control).1 ≡ replies d control = ground arith in
            rw (differs, other, ih')
      ]
    ]
