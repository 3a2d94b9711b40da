-- ===== src/Dns/Total.antt =====
-- The loops of dns.rs end: on no bytes does the model's fuel run out.
use warp_socks.Prelude.{
  ℕ, zero, suc, ◌+◌, ◌-◌, ◌^◌, ◌<◌, ◌≢◌, [], List, length, ltb, leb, ◌==◌, Bool-cases, inl, inr,
  arith, leb→gt, ap,
}
use warp_socks.Prelude.Exec.{Result, ok, err, and_then, err-injective}
use warp_socks.Dns.{
  RecordType, Error, byte_at, u16_at, stuck, skip_labels, skip_name, skip_questions, Found, answers,
  check_flags, parse_dns_response,
}

skip_labels-ne-stuck :
    (fuel : ℕ) (buf : List ℕ) (pos : ℕ)
    → 0 < fuel
    → length buf < fuel + pos
    → skip_labels fuel buf pos ≢ err stuck
unfolding skip_labels
skip_labels-ne-stuck zero buf pos some_fuel h = absurd (omega (arith, some_fuel))
skip_labels-ne-stuck (suc fuel) buf pos some_fuel h = elim (Bool-cases (leb (length buf) pos)) [
  | inl past ↦ rw past (λ s. cc)
  | inr inside ↦
      let here = leb→gt (length buf) pos inside in
      let rest =
        skip_labels-ne-stuck fuel buf (pos + (1 + byte_at buf pos)) (omega (arith, h, here))
          (omega (arith, h)) in
      ground arith
]

skip_name-ne-stuck : (buf : List ℕ) (pos : ℕ) → skip_name buf pos ≢ err stuck
unfolding skip_name
skip_name-ne-stuck buf pos =
    skip_labels-ne-stuck (suc (length buf)) buf pos (omega arith) (omega arith)

and_then-ne-stuck {ℓ κ} :
    {A : Type ℓ} {B : Type κ} (r : Result Error A) (g : A → Result Error B)
    → r ≢ err stuck
    → ((x : A) → g x ≢ err stuck)
    → and_then r g ≢ err stuck
and_then-ne-stuck (ok x) g hr hg = hg x
and_then-ne-stuck (err e) g hr hg = λ s. hr (ap err (err-injective s))

skip_questions-ne-stuck : (n : ℕ) (buf : List ℕ) (pos : ℕ) → skip_questions n buf pos ≢ err stuck
unfolding skip_questions
skip_questions-ne-stuck zero buf pos = λ s. cc
skip_questions-ne-stuck (suc n) buf pos =
    and_then-ne-stuck (skip_name buf pos) _ (skip_name-ne-stuck buf pos)
      λ p. let rest = skip_questions-ne-stuck n buf (p + 4) in ground arith

answers-ne-stuck :
    (n : ℕ) (t : RecordType) (buf : List ℕ) (pos : ℕ) (f : Found)
    → answers n t buf pos f ≢ err stuck
unfolding answers
answers-ne-stuck zero t buf pos f = λ s. cc
answers-ne-stuck (suc n) t buf pos f =
    and_then-ne-stuck (skip_name buf pos) _ (skip_name-ne-stuck buf pos) λ p.
      elim (Bool-cases (ltb (length buf) (p + 10))) [
        | inl past ↦ rw past (λ s. cc)
        | inr inside ↦ elim (Bool-cases (ltb (length buf) (p + 10 + u16_at buf (p + 8)))) [
          | inl past ↦ rw (inside, past) (λ s. cc)
          | inr whole ↦ rw (inside, whole) (answers-ne-stuck n t buf _ _)
        ]
      ]

check_flags-ne-stuck : (flags : ℕ) → check_flags flags ≢ err stuck
unfolding check_flags
check_flags-ne-stuck flags = ground arith

-- On every datagram, whatever its bytes and its counts, the parser returns: with the addresses it
-- found, or with one of the errors of the source.
pub parse_dns_response-ne-stuck :
    (buf : List ℕ) (id : ℕ) (t : RecordType) → parse_dns_response buf id t ≢ err stuck
unfolding parse_dns_response
parse_dns_response-ne-stuck buf id t = elim (Bool-cases (ltb (length buf) 12)) [
  | inl short ↦ rw short (λ s. cc)
  | inr long ↦ elim (Bool-cases (u16_at buf 0 == id)) [
    | inr other ↦ rw (long, other) (λ s. cc)
    | inl same ↦
        rw (long, same)
          (and_then-ne-stuck (check_flags (u16_at buf 2)) _ (check_flags-ne-stuck (u16_at buf 2))
            λ _.
              and_then-ne-stuck (skip_questions (u16_at buf 4) buf 12) _
                (skip_questions-ne-stuck (u16_at buf 4) buf 12)
                λ pos.
                  answers-ne-stuck (u16_at buf 6) t buf pos
                    (record { addrs = []; min_ttl = 2 ^ 32 - 1 }))
  ]
]
