-- ===== src/Ip/Race.antt =====
-- What the race of the dials comes to, whichever of the two in flight ends first each time.
use warp_socks.Prelude.{
  ℕ, ◌+◌, ◌≡◌, refl, List, [], ◌∷◌, ◌++◌, Option, Bool, true, false, length, length-append, inl,
  inr, All, Any, arith,
}
use warp_socks.Prelude.Exec.{Result, ok, err, Result-cases}
use warp_socks.Net.{SocketAddr}
use warp_socks.Ip.{
  DialError, ConnectError, not_connected, attempt, finish, race, race_all, connect_first, pick,
  enumerate_from, interleave_addresses,
}

module _ {E T : Type 0} (dial : ℕ → SocketAddr → Option (Result E T)) where
  abbrev pub Connects : T → SocketAddr → ℕ × SocketAddr → Type 0
  Connects stream target p = (p.1 ≡ target) × (attempt dial p ≡ ok stream)

  abbrev pub Fails : ℕ × SocketAddr → Type 0
  Fails p = (e : DialError E) × (attempt dial p ≡ err e)

  -- A stream is that of one of the dials; an error means that each of them failed, and names `errors` more.
  abbrev pub Raced : ℕ → List (ℕ × SocketAddr) → Result (ConnectError E) (T × SocketAddr) → Type 0
  Raced errors dials (ok (stream, target)) = Any (Connects stream target) dials
  Raced errors dials (err (not_connected all)) =
      All Fails dials × (length all ≡ errors + length dials)

  swapped-Raced :
      (n : ℕ) (p q : ℕ × SocketAddr) (ws : List (ℕ × SocketAddr))
      (r : Result (ConnectError E) (T × SocketAddr))
      → Raced n (q ∷ p ∷ ws) r
      → Raced n (p ∷ q ∷ ws) r
  swapped-Raced n p q ws (ok (stream, target)) (inl here) = inr (inl here)
  swapped-Raced n p q ws (ok (stream, target)) (inr (inl next)) = inl next
  swapped-Raced n p q ws (ok (stream, target)) (inr (inr later)) = inr (inr later)
  swapped-Raced n p q ws (err (not_connected all)) ((hq, (hp, hs)), len) = ((hp, (hq, hs)), len)

  after-Raced :
      (n : ℕ) (p : ℕ × SocketAddr) (ws : List (ℕ × SocketAddr))
      (r : Result (ConnectError E) (T × SocketAddr))
      → Fails p
      → Raced (n + 1) ws r
      → Raced n (p ∷ ws) r
  after-Raced n p ws (ok (stream, target)) fails h = inr h
  after-Raced n p ws (err (not_connected all)) fails (hs, len) = ((fails, hs), omega (arith, len))

  finish-Raced :
      (p : ℕ × SocketAddr) (ws : List (ℕ × SocketAddr)) (errors : List (SocketAddr × DialError E))
      (rest : List (SocketAddr × DialError E) → Result (ConnectError E) (T × SocketAddr))
      → ((all : List (SocketAddr × DialError E))
          → length all ≡ length errors + 1
          → Raced (length errors + 1) ws (rest all))
      → Raced (length errors) (p ∷ ws) (finish dial p errors rest)
  unfolding finish
  finish-Raced (index, target) ws errors rest after =
      elim (Result-cases (attempt dial (index, target))) [
        | inl (stream, e) ↦ rw (e, Raced) (inl (refl, e))
        | inr (error, e) ↦
            let all = errors ++ ((target, error) ∷ []) in
            rw (e, Raced)
              (after-Raced (length errors) (index, target) ws (rest all) (error, e)
                (after all (omega (arith, length-append errors ((target, error) ∷ [])))))
      ]

  nothing_left :
      (n : ℕ) (all : List (SocketAddr × DialError E))
      → length all ≡ n
      → Raced n [] (err (not_connected all))
  nothing_left n all len = (tt, omega (arith, len))

  picked-Raced :
      (second : Bool) (p q : ℕ × SocketAddr) (ws : List (ℕ × SocketAddr))
      (errors : List (SocketAddr × DialError E))
      (rest : ℕ × SocketAddr
        → List (SocketAddr × DialError E)
        → Result (ConnectError E) (T × SocketAddr))
      → ((other : ℕ × SocketAddr) (all : List (SocketAddr × DialError E))
          → length all ≡ length errors + 1
          → Raced (length errors + 1) (other ∷ ws) (rest other all))
      → Raced
          (length errors)
          (p ∷ q ∷ ws)
          (finish dial (pick second p q).0 errors (rest (pick second p q).1))
  picked-Raced true p q ws errors rest after =
      swapped-Raced (length errors) p q ws (finish dial q errors (rest p))
        (finish-Raced q (p ∷ ws) errors (rest p) (after p))
  picked-Raced false p q ws errors rest after = finish-Raced p (q ∷ ws) errors (rest q) (after q)

  race-Raced :
      (second : ℕ → Bool) (p q : ℕ × SocketAddr) (ws : List (ℕ × SocketAddr))
      (errors : List (SocketAddr × DialError E))
      → Raced (length errors) (p ∷ q ∷ ws) (race dial second p q ws errors)
  unfolding race
  race-Raced second p q [] errors =
      picked-Raced (second 0) p q [] errors
        (λ other es. finish dial other es (λ all. err (not_connected all)))
        (λ other es len. rw⁻¹ len (
          finish-Raced other [] es (λ all. err (not_connected all))
            (λ all more. nothing_left (length es + 1) all more)))
  race-Raced second p q (w ∷ ws) errors =
      picked-Raced (second (length ws + 1)) p q (w ∷ ws) errors
        (λ other es. race dial second other w ws es)
        (λ other es len. rw⁻¹ len (race-Raced second other w ws es))

  race_all-Raced :
      (second : ℕ → Bool) (dials : List (ℕ × SocketAddr))
      → Raced 0 dials (race_all dial second dials)
  unfolding race_all
  race_all-Raced second [] = nothing_left 0 [] refl
  race_all-Raced second (p ∷ []) =
      finish-Raced p [] [] (λ all. err (not_connected all)) (λ all more. nothing_left 1 all more)
  race_all-Raced second (p ∷ q ∷ ws) = race-Raced second p q ws []

  -- Whichever of the two dials in flight ends first each time, a stream that is returned is that of one of
  -- the dials to the interleaved targets, with its target; and an error means that every one of these
  -- dials failed, and carries as many failures as there are dials.
  pub connect_first-Raced :
      (second : ℕ → Bool) (targets : List SocketAddr)
      → Raced 0
          (enumerate_from 0 (interleave_addresses targets))
          (connect_first dial second targets)
  unfolding connect_first
  connect_first-Raced second targets =
      race_all-Raced second (enumerate_from 0 (interleave_addresses targets))
