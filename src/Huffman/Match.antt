-- ===== src/Huffman/Match.antt =====
-- What `match_symbol` finds: the one entry of the table whose code heads the bits at hand.
use native.Mathlib.Nat.{add_comm}
use warp_socks.Prelude.{
  ℕ, zero, suc, ◌+◌, ◌-◌, ◌/◌, ◌%◌, ◌^◌, ◌≤◌, ◌<◌, ◌≡◌, ◌≢◌, ◌↔◌, refl, sym, ap, ◌∙◌, List, [], ◌∷◌,
  Bool, true, false, ◌&&◌, not, none, some, arith, length, get_or, leb, ◌==◌, if◌then◌else◌, leb→le,
  leb→gt, inl, inr, Bool-cases,
}
use warp_socks.Prelude.Bytes.{low_bits, shr}
use warp_socks.Huffman.{match_from, match_symbol}
use warp_socks.Huffman.Table.{table}
use warp_socks.Huffman.BitStrings.{mod-div-pow, div-pow-add}

-- the entry `e` is no longer than the `nbits` low bits of `acc`, and heads them
abbrev pub Heads : ℕ × ℕ → ℕ → ℕ → Type 0
Heads e acc nbits = (e.1 ≤ nbits) × (low_bits (shr acc (nbits - e.1)) e.1 ≡ e.0)

abbrev pub nth : List (ℕ × ℕ) → ℕ → ℕ × ℕ
nth rest k = get_or rest k (0, 0)

-- a match is an entry that heads the bits
pub match_from_sound :
    (s : ℕ) (rest : List (ℕ × ℕ)) (acc nbits n len : ℕ)
    → match_from s rest acc nbits ≡ some (n, len)
    → (k : ℕ) × (n ≡ s + k)
      × (k < length rest)
      × ((nth rest k).1 ≡ len)
      × Heads (nth rest k) acc nbits
unfolding match_from
match_from_sound s [] acc nbits n len h = cc
match_from_sound s ((code, l) ∷ rest) acc nbits n len h =
    elim (Bool-cases (leb l nbits && low_bits (shr acc (nbits - l)) l == code)) [
      | inl here ↦ (0, ground arith, ground arith, ground arith, (ground arith, ground arith))
      | inr later ↦
          let (k, a, b, c, d) = match_from_sound (s + 1) rest acc nbits n len (rw later at h) in
          (suc k, omega arith, omega arith, c, d)
    ]

-- no entry that heads the bits is missed
pub match_from_finds :
    (s : ℕ) (rest : List (ℕ × ℕ)) (acc nbits k : ℕ)
    → k < length rest
    → Heads (nth rest k) acc nbits
    → match_from s rest acc nbits ≢ none
unfolding match_from
match_from_finds s [] acc nbits k b h = absurd (omega arith)
match_from_finds s ((code, l) ∷ rest) acc nbits zero b h = ground arith
match_from_finds s ((code, l) ∷ rest) acc nbits (suc k) b h =
    ground (arith, match_from_finds (s + 1) rest acc nbits k (omega arith) h)

and_left : (a b : Bool) → (a && b) ≡ true → a ≡ true
and_left a b h = ground arith

and_right : (a b : Bool) → (a && b) ≡ true → b ≡ true
and_right a b h = ground arith

-- the codes of two entries where neither can be the start of the other
abbrev apart : ℕ × ℕ → ℕ × ℕ → Bool
apart (c, l) (c', l') =
    if leb l l' then not (c' / 2 ^ (l' - l) == c) else not (c / 2 ^ (l - l') == c')

apart_from : ℕ × ℕ → List (ℕ × ℕ) → Bool
apart_from e [] = true
apart_from e (e' ∷ rest) = apart e e' && apart_from e rest

prefix_free : List (ℕ × ℕ) → Bool
prefix_free [] = true
prefix_free (e ∷ rest) = apart_from e rest && prefix_free rest

-- no code of the table is the start of another one
table-prefix_free : prefix_free table ≡ true
unfolding prefix_free apart_from table
table-prefix_free = refl

-- of two codes at the head of the same bits, the shorter one is the start of the longer one
start_of_longer :
    (acc nbits l c d : ℕ)
    → l + d ≤ nbits
    → low_bits (shr acc (nbits - (l + d))) (l + d) ≡ c
    → c / 2 ^ d ≡ low_bits (shr acc (nbits - l)) l
start_of_longer acc nbits l c d fits h =
    let gap : nbits - (l + d) + d ≡ nbits - l = omega arith in
    let x = shr acc (nbits - (l + d)) in
    ap (λ t. t / 2 ^ d) (sym h)
    ∙ ap (λ t. x % 2 ^ t / 2 ^ d) (add_comm l d)
    ∙ mod-div-pow x l d
    ∙ ap (λ t. t % 2 ^ l) (div-pow-add acc (nbits - (l + d)) d)
    ∙ ap (λ t. acc / 2 ^ t % 2 ^ l) gap

-- two entries that head the same bits are not apart
apart-Heads :
    (e e' : ℕ × ℕ) (acc nbits : ℕ) → Heads e acc nbits → Heads e' acc nbits → apart e e' ≡ false
apart-Heads (c, l) (c', l') acc nbits (a, h) (a', h') = elim (Bool-cases (leb l l')) [
  | inl le ↦
      let d : l + (l' - l) ≡ l' = omega (arith, leb→le l l' le) in
      let start : c' / 2 ^ (l' - l) ≡ c =
        start_of_longer acc nbits l c' (l' - l) (rw d a') (rw d h') ∙ h in
      rw le (ground arith)
  | inr gt ↦
      let d : l' + (l - l') ≡ l = omega (arith, leb→gt l l' gt) in
      let start : c / 2 ^ (l - l') ≡ c' =
        start_of_longer acc nbits l' c (l - l') (rw d a) (rw d h) ∙ h' in
      rw gt (ground arith)
]

apart_from-Heads :
    (e : ℕ × ℕ) (rest : List (ℕ × ℕ)) (acc nbits k : ℕ)
    → apart_from e rest ≡ true
    → k < length rest
    → Heads e acc nbits
    → ¬ Heads (nth rest k) acc nbits
unfolding apart_from
apart_from-Heads e [] acc nbits k p b h h' = omega arith
apart_from-Heads e (e' ∷ rest) acc nbits zero p b h h' =
    ground (arith, apart-Heads e e' acc nbits h h')
apart_from-Heads e (e' ∷ rest) acc nbits (suc k) p b h h' =
    apart_from-Heads e rest acc nbits k (and_right _ _ p) (omega arith) h h'

match_from_only :
    (s : ℕ) (rest : List (ℕ × ℕ)) (acc nbits k : ℕ)
    → prefix_free rest ≡ true
    → k < length rest
    → Heads (nth rest k) acc nbits
    → match_from s rest acc nbits ≡ some (s + k, (nth rest k).1)
unfolding match_from prefix_free
match_from_only s [] acc nbits k p b h = absurd (omega arith)
match_from_only s ((code, l) ∷ rest) acc nbits zero p b h = ground arith
match_from_only s ((code, l) ∷ rest) acc nbits (suc k) p b h =
    elim (Bool-cases (leb l nbits && low_bits (shr acc (nbits - l)) l == code)) [
      | inl here ↦ absurd (
          apart_from-Heads (code, l) rest acc nbits k (and_left _ _ p) (omega arith)
            (ground arith, ground arith) h)
      | inr later ↦ rw later (
          match_from_only (s + 1) rest acc nbits k (and_right _ _ p) (omega arith) h
          ∙ ap (λ t. some (t, (nth rest k).1)) (omega arith))
    ]

-- `match_symbol` answers exactly the symbol whose code heads the bits at hand, with its length.
pub match_symbol_exact :
    (acc nbits n len : ℕ)
    → (match_symbol acc nbits ≡ some (n, len))
      ↔ ((n < 257) × ((nth table n).1 ≡ len) × Heads (nth table n) acc nbits)
unfolding match_symbol
match_symbol_exact acc nbits n len = (
  λ m.
      let (k, e, b, l, h) = match_from_sound 0 table acc nbits n len m in
      let same : n ≡ k = omega arith in rw same (unfold table in b, l, h),
  λ (b, l, h).
      match_from_only 0 table acc nbits n table-prefix_free (unfold table in b) h
      ∙ ap some (ground arith),
)
