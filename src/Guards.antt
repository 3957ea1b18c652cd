-- ===== src/Guards.antt =====
-- src/tor/client.rs, `Guards` and the functions that choose, condemn and add a guard. An identity, an address and an
-- Ed25519 key are numbers, since the code only compares and copies them. An instant is a number of microseconds, and
-- `unix` a number of seconds; the lock is held for each function.
pub mod Candidate
mod Tests
use rust_tor_proxy.Prelude.{
  ℕ, ◌+◌, ◌-◌, Bool, true, false, not, ◌&&◌, Option, none, some, List, [], ◌∷◌, ◌++◌, length, any,
  map, retain, ltb, leb, ◌==◌, if◌then◌else◌,
}

abbrev pub max_guards : ℕ
max_guards = 3

-- `GUARD_RETRY_INTERVAL` in microseconds, and `GUARD_STRIKE_WINDOW` in seconds and in microseconds.
abbrev pub guard_retry_interval : ℕ
guard_retry_interval = 600000000

abbrev pub guard_strike_window : ℕ
guard_strike_window = 1800

abbrev pub strike_window_us : ℕ
strike_window_us = 1800000000

abbrev pub guard_strikes : ℕ
guard_strikes = 3

abbrev pub max_slow_guard_changes : ℕ
max_slow_guard_changes = 2

-- `GuardContact`
pub record GuardContact : Type 0 where
  pub addr : ℕ
  pub ed_identity : ℕ

-- `GuardEntry`
pub record GuardEntry : Type 0 where
  pub identity : ℕ
  pub strikes : List ℕ
  pub demoted_unix : Option ℕ
  pub contact : Option GuardContact
  pub failed_at : Option ℕ

-- `OpenGuard`, without the relay's description; its channel is the address and the key that it has.
pub record OpenGuard : Type 0 where
  pub identity : ℕ
  pub peer : GuardContact

pub record Guards : Type 0 where
  pub entries : List GuardEntry
  pub in_use : Option OpenGuard

abbrev pub serving : ℕ → Option ℕ → Bool
serving unix none = false
serving unix (some at) = leb at unix && ltb (unix - at) guard_strike_window

-- `is_demoted`
unfoldable pub is_demoted : ℕ → GuardEntry → Bool
is_demoted unix entry = serving unix entry.demoted_unix

abbrev pub is_unfailed : Option ℕ → Bool
is_unfailed none = true
is_unfailed (some at) = false

-- Whether a failure is as old as the retry interval; `elapsed` is at least 0.
abbrev pub is_cooled : ℕ → Option ℕ → Bool
is_cooled now none = false
is_cooled now (some at) = leb guard_retry_interval (now - at)

-- `entries.iter().find(p).map(|e| e.identity)`
unfoldable pub find_identity : (GuardEntry → Bool) → List GuardEntry → Option ℕ
find_identity p [] = none
find_identity p (e ∷ es) = if p e then some e.identity else find_identity p es

abbrev pub first_some : Option ℕ → Option ℕ → Option ℕ
first_some none later = later
first_some (some a) later = some a

-- `next_candidate`
unfoldable pub next_candidate : ℕ → ℕ → Guards → Option ℕ
unfolding is_demoted find_identity
next_candidate now unix guards =
    first_some
      (find_identity (λ e. is_unfailed e.failed_at && not (is_demoted unix e)) guards.entries)
      (find_identity (λ e. not (is_demoted unix e) && is_cooled now e.failed_at) guards.entries)

-- `entries.iter_mut().find(|e| &e.identity == identity)`, and what is done to it.
unfoldable pub update_entry : ℕ → (GuardEntry → GuardEntry) → List GuardEntry → List GuardEntry
update_entry identity f [] = []
update_entry identity f (e ∷ es) =
    if e.identity == identity then f e ∷ es else e ∷ update_entry identity f es

abbrev pub forget : ℕ → Option OpenGuard → Option OpenGuard
forget identity none = none
forget identity (some o) = if o.identity == identity then none else some o

-- `stop_using`
unfoldable pub stop_using : ℕ → ℕ → Guards → Guards
unfolding update_entry
stop_using now identity guards = record {
  entries = update_entry identity (λ e. record e { failed_at = some now }) guards.entries;
  in_use = forget identity guards.in_use;
}

-- `self.open.take_if(..)`: the guards, and the open guard whose channel is closed.
abbrev pub take_open : ℕ → Guards → Option OpenGuard → Guards × Option OpenGuard
take_open identity guards none = (guards, none)
take_open identity guards (some o) =
    if o.identity == identity then (record guards { in_use = none }, some o) else (guards, none)

-- `mark_failed`
unfoldable pub mark_failed : ℕ → ℕ → Guards → Guards × Option OpenGuard
unfolding stop_using
mark_failed now identity guards =
    let stopped = stop_using now identity guards in take_open identity stopped stopped.in_use

-- `mark_working`
unfoldable pub mark_working : ℕ → Guards → Guards
unfolding update_entry
mark_working identity guards = record guards {
  entries = update_entry identity (λ e. record e { failed_at = none }) guards.entries;
}

abbrev record_from : ℕ → Option OpenGuard → List GuardEntry → List GuardEntry
record_from identity none entries = entries
record_from identity (some o) entries =
    if o.identity == identity
    then update_entry identity (λ e. record e { contact = some o.peer }) entries
    else entries

-- `record_contact`
unfoldable pub record_contact : ℕ → Guards → Guards
unfolding update_entry
record_contact identity guards = record guards {
  entries = record_from identity guards.in_use guards.entries;
}

-- `strike`: the strikes afterwards, and whether they are enough.
unfoldable pub strike : List ℕ → ℕ → List ℕ × Bool
strike strikes now =
    let kept = retain (λ at. ltb (now - at) strike_window_us) strikes ++ (now ∷ []) in
    (kept, leb guard_strikes (length kept))

abbrev pub to_back : ℕ → List GuardEntry → Option GuardEntry → List GuardEntry
to_back identity rest none = rest
to_back identity rest (some e) = rest ++ (e ∷ [])

-- The entry that `position` finds, and the list without it.
unfoldable pub take_entry : ℕ → List GuardEntry → Option GuardEntry × List GuardEntry
take_entry identity [] = (none, [])
take_entry identity (e ∷ es) =
    let (found, rest) = take_entry identity es in
    if e.identity == identity then (some e, es) else (found, e ∷ rest)

-- The end of `note_bad_circuits`, for a guard that has collected enough strikes.
unfoldable pub condemn : ℕ → ℕ → ℕ → Guards → Guards
unfolding update_entry stop_using take_entry
condemn now unix identity guards =
    let demoted =
      update_entry identity (λ e. record e { strikes = []; demoted_unix = some unix })
        guards.entries in
    let stopped = stop_using now identity (record guards { entries = demoted }) in
    let (found, rest) = take_entry identity stopped.entries in
    record stopped { entries = to_back identity rest found }

abbrev in_use_is : ℕ → Option OpenGuard → Bool
in_use_is identity none = false
in_use_is identity (some o) = o.identity == identity

abbrev is_recent : ℕ → Option ℕ → Bool
is_recent now none = false
is_recent now (some at) = ltb (now - at) guard_retry_interval

abbrev retried_first : ℕ → ℕ → Option OpenGuard → List GuardEntry → Option ℕ
retried_first now unix in_use [] = none
retried_first now unix in_use (e ∷ es) =
    if is_demoted unix e
    then none
    else if is_unfailed e.failed_at && in_use_is e.identity in_use
    then none
    else if is_recent now e.failed_at
    then none
    else some e.identity

-- The guard that `retry_primary_guard` connects to.
unfoldable pub retried_primary : ℕ → ℕ → Guards → Option ℕ
unfolding is_demoted
retried_primary now unix guards = retried_first now unix guards.in_use guards.entries

-- The order of `Option<Instant>`: `None` is the least.
abbrev fails_before : Option ℕ → Option ℕ → Bool
fails_before none none = false
fails_before none (some b) = true
fails_before (some a) none = false
fails_before (some a) (some b) = ltb a b

-- `min_by_key(|e| e.failed_at)`, which returns the first of the least.
unfoldable pub least_failed : GuardEntry → List GuardEntry → GuardEntry
least_failed least [] = least
least_failed least (e ∷ es) =
    least_failed (if fails_before e.failed_at least.failed_at then e else least) es

-- What `ensure_guard` decides under its first lock: a guard, that there is none, or to choose one beside those taken.
pub data Decision : Type 0 where
  use_guard : ℕ → Decision
  no_guard : Decision
  choose : List ℕ → Decision

abbrev soonest : List GuardEntry → Decision
soonest [] = no_guard
soonest (e ∷ es) = use_guard (least_failed e es).identity

abbrev decided : Guards → Option ℕ → Decision
decided guards (some identity) = use_guard identity
decided guards none =
    if leb max_guards (length guards.entries)
    then soonest guards.entries
    else choose (map (λ e. e.identity) guards.entries)

unfoldable pub decide : ℕ → ℕ → Guards → Decision
unfolding next_candidate least_failed
decide now unix guards = decided guards (next_candidate now unix guards)

-- What `ensure_guard` does with its choice, under a second lock.
unfoldable pub add_guard : ℕ → Guards → Guards
add_guard chosen guards =
    if any (λ e. e.identity == chosen) guards.entries then guards else record guards {
      entries =
          guards.entries
          ++ (record {
            identity = chosen;
            strikes = [];
            demoted_unix = none;
            contact = none;
            failed_at = none;
          }
              ∷ []);
    }
