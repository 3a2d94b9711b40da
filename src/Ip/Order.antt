-- ===== src/Ip/Order.antt =====
-- The order in which the targets are dialled, and what follows for a target that answers.
use mathlib.Core.Path.{subst}
use warp_socks.Prelude.{
  ℕ, ◌+◌, ◌≡◌, refl, ap, ◌∙◌, List, [], ◌∷◌, Option, some, Bool, true, false, not, inl, inr, ◌⊎◌,
  All, Any, filter, Bool-cases,
}
use warp_socks.Prelude.Exec.{Result, ok, Result-cases}
use warp_socks.Net.{SocketAddr}
use warp_socks.Ip.{
  not_connected, attempt, connect_first, enumerate_from, interleave_addresses, is_v4, is_v6,
  take_turns,
}
use warp_socks.Ip.Race.{Raced, Fails, connect_first-Raced}

abbrev Holds : (SocketAddr → Bool) → Bool → List SocketAddr → Type 0
Holds p b = All (λ x. p x ≡ b)

module _ (p : SocketAddr → Bool) where
  filter-Holds :
      (b : Bool) (q : SocketAddr → Bool) (xs : List SocketAddr)
      → ((x : SocketAddr) → q x ≡ true → p x ≡ b)
      → Holds p b (filter q xs)
  filter-Holds b q [] same = tt
  filter-Holds b q (x ∷ xs) same = elim (Bool-cases (q x)) [
    | inl on ↦ rw (on, All) (same x on, filter-Holds b q xs same)
    | inr off ↦ rw (off, All) (filter-Holds b q xs same)
  ]

  filter-take_turns_first :
      (ps qs : List SocketAddr)
      → Holds p true ps
      → Holds p false qs
      → filter p (take_turns ps qs) ≡ ps
  unfolding take_turns
  filter-take_turns_first [] [] hp hq = refl
  filter-take_turns_first (x ∷ ps) [] (h, hp) hq = rw (h, filter-take_turns_first ps [] hp tt) refl
  filter-take_turns_first [] (y ∷ qs) hp (g, hq) = rw (g, filter-take_turns_first [] qs tt hq) refl
  filter-take_turns_first (x ∷ ps) (y ∷ qs) (h, hp) (g, hq) =
      rw (h, g, filter-take_turns_first ps qs hp hq) refl

  filter-take_turns_second :
      (ps qs : List SocketAddr)
      → Holds p false ps
      → Holds p true qs
      → filter p (take_turns ps qs) ≡ qs
  unfolding take_turns
  filter-take_turns_second [] [] hp hq = refl
  filter-take_turns_second (x ∷ ps) [] (h, hp) hq =
      rw (h, filter-take_turns_second ps [] hp tt) refl
  filter-take_turns_second [] (y ∷ qs) hp (g, hq) =
      rw (g, filter-take_turns_second [] qs tt hq) refl
  filter-take_turns_second (x ∷ ps) (y ∷ qs) (h, hp) (g, hq) =
      rw (h, g, filter-take_turns_second ps qs hp hq) refl

v4-v6 : (x : SocketAddr) → is_v4 x ≡ true → is_v6 x ≡ false
v4-v6 x h = rw h refl

negation_lem : (b : Bool) → not b ≡ true → b ≡ false
negation_lem false h = refl
negation_lem true h = cc

v6-v4 : (x : SocketAddr) → is_v6 x ≡ true → is_v4 x ≡ false
v6-v4 x h = negation_lem (is_v4 x) h

-- The interleaved targets are the given ones: those of IPv4 in their order, and those of IPv6 in theirs.
pub interleave_addresses-filter :
    (targets : List SocketAddr)
    → (filter is_v4 (interleave_addresses targets) ≡ filter is_v4 targets)
      × (filter is_v6 (interleave_addresses targets) ≡ filter is_v6 targets)
unfolding interleave_addresses
interleave_addresses-filter targets = (
  filter-take_turns_first is_v4 (filter is_v4 targets) (filter is_v6 targets)
      (filter-Holds is_v4 true is_v4 targets (λ x h. h))
      (filter-Holds is_v4 false is_v6 targets v6-v4),
  filter-take_turns_second is_v6 (filter is_v4 targets) (filter is_v6 targets)
      (filter-Holds is_v6 false is_v4 targets v4-v6)
      (filter-Holds is_v6 true is_v6 targets (λ x h. h)),
)

abbrev pub IsAmong : SocketAddr → List SocketAddr → Type 0
IsAmong target = Any (λ x. x ≡ target)

filter-IsAmong :
    (p : SocketAddr → Bool) (target : SocketAddr) (xs : List SocketAddr)
    → p target ≡ true
    → IsAmong target xs
    → IsAmong target (filter p xs)
filter-IsAmong p target [] h there = there
filter-IsAmong p target (x ∷ xs) h (inl here) = rw (ap p here ∙ h, Any) (inl here)
filter-IsAmong p target (x ∷ xs) h (inr there) =
    let rest = filter-IsAmong p target xs h there in
    elim (Bool-cases (p x)) [ inl on ↦ rw (on, Any) (inr rest) | inr off ↦ rw (off, Any) rest ]

take_turns-IsAmong :
    (target : SocketAddr) (ps qs : List SocketAddr)
    → IsAmong target ps ⊎ IsAmong target qs
    → IsAmong target (take_turns ps qs)
unfolding take_turns
take_turns-IsAmong target [] [] (inl h) = h
take_turns-IsAmong target [] [] (inr h) = h
take_turns-IsAmong target (x ∷ ps) [] (inr h) = elim h [ ]
take_turns-IsAmong target [] (y ∷ qs) (inl h) = elim h [ ]
take_turns-IsAmong target (x ∷ ps) [] (inl (inl h)) = inl h
take_turns-IsAmong target (x ∷ ps) [] (inl (inr h)) = inr (take_turns-IsAmong target ps [] (inl h))
take_turns-IsAmong target [] (y ∷ qs) (inr (inl h)) = inl h
take_turns-IsAmong target [] (y ∷ qs) (inr (inr h)) = inr (take_turns-IsAmong target [] qs (inr h))
take_turns-IsAmong target (x ∷ ps) (y ∷ qs) (inl (inl h)) = inl h
take_turns-IsAmong target (x ∷ ps) (y ∷ qs) (inl (inr h)) =
    inr (inr (take_turns-IsAmong target ps qs (inl h)))
take_turns-IsAmong target (x ∷ ps) (y ∷ qs) (inr (inl h)) = inr (inl h)
take_turns-IsAmong target (x ∷ ps) (y ∷ qs) (inr (inr h)) =
    inr (inr (take_turns-IsAmong target ps qs (inr h)))

interleave_addresses-IsAmong :
    (target : SocketAddr) (targets : List SocketAddr)
    → IsAmong target targets
    → IsAmong target (interleave_addresses targets)
unfolding interleave_addresses
interleave_addresses-IsAmong target targets h =
    take_turns-IsAmong target (filter is_v4 targets) (filter is_v6 targets)
      (elim (Bool-cases (is_v4 target)) [
        | inl on ↦ inl (filter-IsAmong is_v4 target targets on h)
        | inr off ↦ inr (filter-IsAmong is_v6 target targets (rw off refl) h)
      ])

module _ {E T : Type 0} (dial : ℕ → SocketAddr → Option (Result E T)) where
  -- a target that answers, among dials that all fail
  answers_nowhere :
      (target : SocketAddr) (n : ℕ) (xs : List SocketAddr)
      → ((k : ℕ) → (stream : T) × (dial k target ≡ some (ok stream)))
      → IsAmong target xs
      → All (Fails dial) (enumerate_from n xs)
      → ⊥
  unfolding attempt
  answers_nowhere target n [] answers there fails = elim there [ ]
  answers_nowhere target n (x ∷ xs) answers (inl here) ((e, fails), rest) =
      let (stream, h) = answers n in
      let same : dial n x ≡ some (ok stream) = ap (dial n) here ∙ h in
      let streams : attempt dial (n, x) ≡ ok stream = rw (same, attempt) refl in cc
  answers_nowhere target n (x ∷ xs) answers (inr there) (h, rest) =
      answers_nowhere target (n + 1) xs answers there rest

  -- If one of the targets answers whenever it is dialled, then a stream is returned, whichever of the
  -- two dials in flight ends first each time and whatever becomes of the others.
  pub connect_first_live :
      (second : ℕ → Bool) (targets : List SocketAddr) (target : SocketAddr)
      → IsAmong target targets
      → ((k : ℕ) → (stream : T) × (dial k target ≡ some (ok stream)))
      → (found : T × SocketAddr) × (connect_first dial second targets ≡ ok found)
  connect_first_live second targets target among answers =
      elim (Result-cases (connect_first dial second targets)) [
        | inl (found, e) ↦ (found, e)
        | inr (not_connected all, e) ↦
            let (fails, len) =
              subst (Raced dial 0 (enumerate_from 0 (interleave_addresses targets))) e
                (connect_first-Raced dial second targets) in
            absurd (
              answers_nowhere target 0 (interleave_addresses targets) answers
                (interleave_addresses-IsAmong target targets among) fails)
      ]
