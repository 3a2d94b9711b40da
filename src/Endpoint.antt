-- ===== src/Endpoint.antt =====
-- endpoint/state.rs and endpoint/source.rs: the cooldowns of endpoints and the last good one, and the
-- order in which candidates are tried. Instants are in seconds since 1970; a text is the list of its
-- bytes. The state file is written through `save`, whose success is an argument.
pub mod Plan
pub mod Source
mod Runs
use warp_socks.Prelude.{
  ℕ, ◌+◌, ◌-◌, List, [], ◌∷◌, ◌++◌, Option, none, some, Bool, true, false, not, ◌||◌, length, ltb,
  leb, ◌==◌, if◌then◌else◌,
}
use warp_socks.Prelude.Utf8.{bytes_eq}

abbrev pub Text : Type 0
Text = List ℕ

pub record State : Type 0 where
  pub last_good_endpoint : Text
  pub cooldowns : List (Text × ℕ)

-- the store in memory, and what its file holds
pub record Store : Type 0 where
  pub state : State
  pub file : Option State

abbrev pub empty_state : State
empty_state = record { last_good_endpoint = []; cooldowns = [] }

-- `retain(|_, until| *until > now)`
pub unexpired : ℕ → List (Text × ℕ) → List (Text × ℕ)
unexpired now [] = []
unexpired now ((e, until) ∷ rest) =
    if ltb now until then (e, until) ∷ unexpired now rest else unexpired now rest

-- whether the write succeeds is `written`; the state in memory stays changed when it does not
unfoldable pub save : Bool → Store → Bool × Store
save written store = (written, if written then record store { file = some store.state } else store)

pub prune_cooldowns : ℕ → Bool → Bool → Store → Bool × Store
unfolding unexpired save
prune_cooldowns now force_save written store =
    let kept = unexpired now store.state.cooldowns in
    let pruned = record store { state = record store.state { cooldowns = kept } } in
    if force_save || not (length store.state.cooldowns == length kept)
    then save written pruned
    else (true, pruned)

-- A file that is there but is no state reads as the empty one; a file that cannot be read, for which the
-- source fails, is left out.
pub load : Option (Option State) → ℕ → Bool → Bool × Store
unfolding prune_cooldowns
load none now written =
    prune_cooldowns now true written (record { state = empty_state; file = none })
load (some none) now written =
    prune_cooldowns now false written (record { state = empty_state; file = none })
load (some (some state)) now written =
    prune_cooldowns now false written (record { state = state; file = some state })

pub last_good : Store → Option Text
last_good store = elim store.state.last_good_endpoint [ [] ↦ none | c ∷ cs ↦ some (c ∷ cs) ]

-- a map's `get`, `remove` and `insert`
pub until_of : List (Text × ℕ) → Text → Option ℕ
until_of [] endpoint = none
until_of ((e, until) ∷ rest) endpoint =
    if bytes_eq e endpoint then some until else until_of rest endpoint

pub remove : Text → List (Text × ℕ) → List (Text × ℕ)
remove endpoint [] = []
remove endpoint ((e, until) ∷ rest) =
    if bytes_eq e endpoint then remove endpoint rest else (e, until) ∷ remove endpoint rest

pub insert : Text → ℕ → List (Text × ℕ) → List (Text × ℕ)
insert endpoint until entries = (endpoint, until) ∷ remove endpoint entries

pub cooldown_remaining : Store → ℕ → Text → ℕ
cooldown_remaining store now endpoint = elim (until_of store.state.cooldowns endpoint) [
  | none ↦ 0
  | some until ↦ if leb until now then 0 else until - now
]

pub is_cooling_down : Store → ℕ → Text → Bool
is_cooling_down store now endpoint = not (cooldown_remaining store now endpoint == 0)

unfoldable pub record_success : Bool → Text → Store → Bool × Store
record_success written endpoint store = save written (record store {
  state = record {
    last_good_endpoint = endpoint;
    cooldowns = remove endpoint store.state.cooldowns;
  };
})

unfoldable pub mark_cooldown : Bool → ℕ → ℕ → Text → Store → Bool × Store
mark_cooldown written now duration endpoint store = save written (record store {
  state = record store.state { cooldowns = insert endpoint (now + duration) store.state.cooldowns };
})

-- source.rs
pub contains : Text → List Text → Bool
contains x [] = false
contains x (y ∷ ys) = bytes_eq y x || contains x ys

-- `dedup_preserve_order`, with the texts it has seen
pub dedup : List Text → List Text → List Text
dedup seen [] = []
dedup seen (x ∷ xs) = if contains x seen then dedup seen xs else x ∷ dedup (x ∷ seen) xs

pub ready : Store → ℕ → List Text → List Text
ready store now [] = []
ready store now (x ∷ xs) =
    if is_cooling_down store now x then ready store now xs else x ∷ ready store now xs

pub cooling : Store → ℕ → List Text → List Text
cooling store now [] = []
cooling store now (x ∷ xs) =
    if is_cooling_down store now x then x ∷ cooling store now xs else cooling store now xs

pub merged : List Text → Store → List Text
merged pool store = elim (last_good store) [
  | none ↦ dedup [] pool
  | some endpoint ↦ dedup [] (if contains endpoint pool then endpoint ∷ pool else pool)
]

unfoldable pub plan_candidates : List Text → Store → ℕ → List Text
unfolding merged ready cooling last_good contains dedup is_cooling_down cooldown_remaining until_of
plan_candidates pool store now =
    ready store now (merged pool store) ++ cooling store now (merged pool store)
