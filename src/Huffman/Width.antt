-- ===== src/Huffman/Width.antt =====
-- The accumulator of the decoder stays far below its 64 bits: the code is complete, so no 30 bits
-- are without a match.
use warp_socks.Prelude.{
  ℕ, zero, suc, ◌+◌, ◌-◌, ◌*◌, ◌/◌, ◌%◌, ◌^◌, ◌≤◌, ◌<◌, ◌≡◌, ◌≢◌, refl, sym, ap, ◌∙◌, List, [], ◌∷◌,
  Bool, true, false, ◌&&◌, none, some, arith, length, ◌==◌, if◌then◌else◌, Bool-cases, inl, inr,
  ==→eq, ==→ne, ltb, ltb→lt, ltb→ge, Option-cases, ◌++◌,
}
use native.Mathlib.Numerals.{towards_suc}
use mathlib.Core.Path.{subst}
use warp_socks.Huffman.Steps.{drain_stop, drain_go}
use native.Mathlib.Nat.{pow-le-pow_right, mod-eq_of_lt, mod-lt, pow-suc, div-eq_of_lt}
use warp_socks.Prelude.Exec.{ok, ok-injective}
use warp_socks.Prelude.Bytes.{pow-pos, low_bits, shr, IsByte}
use warp_socks.Huffman.{match_symbol, drain, shift_in}
use warp_socks.Huffman.Table.{table}
use warp_socks.Huffman.BitStrings.{div-pow-add}
use warp_socks.Huffman.Match.{nth, match_from_finds, match_symbol_exact}

has_entry : List (ℕ × ℕ) → ℕ → ℕ → Bool
has_entry [] code len = false
has_entry ((c, l) ∷ rest) code len = if c == code && l == len then true else has_entry rest code len

-- every continuation of the `len` bits of `code` by `d` more passes a code of the table
covers : ℕ → ℕ → ℕ → Bool
covers zero code len = has_entry table code len
covers (suc d) code len = elim (has_entry table code len) [
  | true ↦ true
  | false ↦ covers d (code * 2) (suc len) && covers d (code * 2 + 1) (suc len)
]

table_complete : covers 30 0 0 ≡ true
unfolding covers has_entry table
table_complete = refl

has_entry-position :
    (rest : List (ℕ × ℕ)) (code len : ℕ)
    → has_entry rest code len ≡ true
    → (k : ℕ) × (k < length rest) × (nth rest k ≡ (code, len))
unfolding has_entry
has_entry-position [] code len h = cc
has_entry-position ((c, l) ∷ rest) code len h = elim (Bool-cases (c == code && l == len)) [
  | inl here ↦ (0, omega arith, ground arith)
  | inr later ↦
      let (k, b, e) = has_entry-position rest code len (rw later at h) in (suc k, omega arith, e)
]

entry_matches :
    (acc nbits code len : ℕ)
    → has_entry table code len ≡ true
    → len ≤ nbits
    → code < 2 ^ len
    → shr acc (nbits - len) ≡ code
    → match_symbol acc nbits ≢ none
unfolding match_symbol
entry_matches acc nbits code len p fits small h =
    let (k, b, e) = has_entry-position table code len p in
    match_from_finds 0 table acc nbits k b
      (rw e (fits, ap (λ t. t % 2 ^ len) h ∙ mod-eq_of_lt small))

-- one more bit of the same window
next_bit :
    (acc nbits len : ℕ) → suc len ≤ nbits → shr acc (nbits - suc len) / 2 ≡ shr acc (nbits - len)
next_bit acc nbits len h =
    let gap : nbits - suc len + 1 ≡ nbits - len = omega arith in
    div-pow-add acc (nbits - suc len) 1 ∙ ap (λ t. acc / 2 ^ t) gap

covers-matches :
    (d code len acc nbits : ℕ)
    → covers d code len ≡ true
    → len + d ≤ nbits
    → code < 2 ^ len
    → shr acc (nbits - len) ≡ code
    → match_symbol acc nbits ≢ none
unfolding covers
covers-matches zero code len acc nbits p b small h =
    entry_matches acc nbits code len p (omega arith) small h
covers-matches (suc d) code len acc nbits p b small h =
    elim (Bool-cases (has_entry table code len)) [
      | inl here ↦ entry_matches acc nbits code len here (omega arith) small h
      | inr more ↦
          let both : (covers d (code * 2) (suc len) ≡ true)
              × (covers d (code * 2 + 1) (suc len) ≡ true) =
            ground arith in
          let bit = next_bit acc nbits len (omega arith) ∙ h in
          elim (Bool-cases (shr acc (nbits - suc len) % 2 == 0)) [
            | inl even ↦
                covers-matches d (code * 2) (suc len) acc nbits both.0 (omega arith)
                  (omega (arith, pow-suc 2 len)) (omega (arith, ==→eq _ _ even))
            | inr odd ↦
                covers-matches d (code * 2 + 1) (suc len) acc nbits both.1 (omega arith)
                  (omega (arith, pow-suc 2 len)) (omega (arith, ==→ne _ _ odd))
          ]
    ]

-- Thirty bits always hold a code.
pub no_match_below : (acc nbits : ℕ) → acc < 2 ^ nbits → match_symbol acc nbits ≡ none → nbits < 30
no_match_below acc nbits small h = elim (Bool-cases (ltb nbits 30)) [
  | inl lt ↦ ltb→lt _ _ lt
  | inr ge ↦ absurd (
      covers-matches 30 0 0 acc nbits table_complete (ltb→ge _ _ ge) (omega arith)
        (ap (λ t. acc / 2 ^ t) (omega arith) ∙ div-eq_of_lt small) h)
]

lengths_positive : List (ℕ × ℕ) → Bool
lengths_positive [] = true
lengths_positive ((c, l) ∷ rest) = ltb 0 l && lengths_positive rest

length_positive :
    (rest : List (ℕ × ℕ)) (k : ℕ)
    → lengths_positive rest ≡ true
    → k < length rest
    → 0 < (nth rest k).1
unfolding lengths_positive
length_positive [] k p b = absurd (omega arith)
length_positive (e ∷ rest) zero p b = ground arith
length_positive (e ∷ rest) (suc k) p b = length_positive rest k (ground arith) (omega arith)

-- A match takes a bit at least, and no more than there are.
pub match_length :
    (acc nbits n len : ℕ) → match_symbol acc nbits ≡ some (n, len) → (0 < len) × (len ≤ nbits)
match_length acc nbits n len m =
    let (b, e, h) = (match_symbol_exact acc nbits n len).0 m in
    let pos : 0 < (nth table n).1 =
      length_positive table n (unfold lengths_positive table in refl) (unfold table in b) in
    (omega arith, omega arith)

-- The decoder's state between two bytes: the accumulator holds `nbits` bits, fewer than 30.
abbrev pub IsSettled : List ℕ × ℕ × ℕ → Type 0
IsSettled s = (s.1 < 2 ^ s.2) × (s.2 < 30)

pub drain-IsSettled :
    (fuel : ℕ) (out : List ℕ) (acc nbits : ℕ) (s : List ℕ × ℕ × ℕ)
    → nbits ≤ fuel
    → acc < 2 ^ nbits
    → drain fuel out acc nbits ≡ ok s
    → IsSettled s
unfolding drain
drain-IsSettled zero out acc nbits s b small h =
    subst IsSettled (ok-injective h) (small, (omega arith))
drain-IsSettled (suc fuel) out acc nbits s b small h =
    elim (Option-cases (match_symbol acc nbits)) [
      | inl stop ↦
          subst IsSettled (ok-injective (sym (drain_stop (suc fuel) out acc nbits stop) ∙ h))
            (small, no_match_below acc nbits small stop)
      | inr ((n, len), go) ↦
          let (pos, fits) = match_length acc nbits n len go in
          let step = sym (drain_go fuel out acc nbits n len go) ∙ h in
          elim (Bool-cases (n == 256)) [
            | inl eos ↦ cc (rw eos at step)
            | inr sym ↦
                drain-IsSettled fuel (out ++ (n % 256) ∷ []) (low_bits acc (nbits - len))
                  (nbits - len) s (omega arith) (mod-lt acc (pow-pos (nbits - len)))
                  (rw sym at step)
          ]
    ]

-- Shifting a byte into a settled state loses no bit of the u64, and leaves at most 37 bits.
pub shift_in-lt :
    (acc nbits byte : ℕ)
    → acc < 2 ^ nbits
    → nbits < 30
    → IsByte byte
    → (shift_in acc byte ≡ acc * 256 + byte) × (shift_in acc byte < 2 ^ (nbits + 8))
shift_in-lt acc nbits byte small narrow b =
    let room : 2 ^ (nbits + 8) ≡ 2 ^ nbits * 256 = simp towards_suc (simp pow-suc (omega arith)) in
    let bound : 2 ^ nbits ≤ 2 ^ 30 =
      pow-le-pow_right {n = 2} (omega arith) {i = nbits} {j = 30} (omega arith) in
    let exact : shift_in acc byte ≡ acc * 256 + byte = mod-eq_of_lt (omega arith) in
    (exact, omega arith)
