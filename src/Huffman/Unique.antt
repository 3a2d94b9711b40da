-- ===== src/Huffman/Unique.antt =====
-- Bits begin with the code of one symbol at most.
use native.Mathlib.Nat.{mod-eq_of_lt, le_refl}
use mathlib.Core.List.{append_assoc, append-nil}
use warp_socks.Prelude.{
  ℕ, zero, suc, ◌+◌, ◌-◌, ◌/◌, ◌%◌, ◌^◌, ◌≤◌, ◌<◌, ◌≡◌, ◌≢◌, refl, sym, ap, ◌∙◌, List, [], ◌∷◌,
  ◌++◌, Bool, true, ◌&&◌, arith, length, length-append, ltb, leb, Bool-cases, inl, inr,
  append-cancel, leb→le, leb→gt,
}
use warp_socks.Prelude.Bytes.{shr}
use warp_socks.Huffman.Table.{table}
use warp_socks.Huffman.BitStrings.{bits, bits-add, mod-step}
use warp_socks.Huffman.Match.{nth, Heads, match_symbol_exact}
use warp_socks.Huffman.Sound.{code_bits, ones}

pub length-bits : (k n : ℕ) → length (bits k n) ≡ k
unfolding bits
length-bits zero n = refl
length-bits (suc k) n =
    length-append (bits k (n / 2)) (n % 2 ∷ []) ∙ omega (arith, length-bits k (n / 2))

-- equal bit strings stand for equal numbers
pub bits-injective : (k a b : ℕ) → bits k a ≡ bits k b → a % 2 ^ k ≡ b % 2 ^ k
unfolding bits
bits-injective zero a b e = omega arith
bits-injective (suc k) a b e =
    let (high, low) =
      append-cancel (bits k (a / 2)) (bits k (b / 2))
        (length-bits k (a / 2) ∙ sym (length-bits k (b / 2))) e in
    let last : a % 2 ≡ b % 2 = cc low in
    omega (arith, mod-step a k, mod-step b k, bits-injective k (a / 2) (b / 2) high)

codes_fit : List (ℕ × ℕ) → Bool
codes_fit [] = true
codes_fit ((c, l) ∷ rest) = ltb c (2 ^ l) && codes_fit rest

code-lt_from :
    (rest : List (ℕ × ℕ)) (k : ℕ) → codes_fit rest ≡ true → (nth rest k).0 < 2 ^ (nth rest k).1
unfolding codes_fit
code-lt_from [] k p = omega arith
code-lt_from ((c, l) ∷ rest) zero p = ground arith
code-lt_from ((c, l) ∷ rest) (suc k) p = code-lt_from rest k (ground arith)

code-lt : (n : ℕ) → (nth table n).0 < 2 ^ (nth table n).1
code-lt n = code-lt_from table n (unfold codes_fit table in refl)

-- bits that begin with the code of `n` are headed by its entry
pub Heads-of_split :
    (n acc nbits : ℕ) (after more : List ℕ)
    → (nth table n).1 ≤ nbits
    → bits nbits acc ++ after ≡ code_bits n ++ more
    → Heads (nth table n) acc nbits
Heads-of_split n acc nbits after more fits e =
    let (code, len) = nth table n in
    let whole : nbits - len + len ≡ nbits = omega arith in
    let window = shr acc (nbits - len) in
    let split : bits nbits acc ≡ bits len window ++ bits (nbits - len) acc =
      ap (λ t. bits t acc) (sym whole) ∙ bits-add len (nbits - len) acc in
    let heads =
      append-cancel (bits len window) (bits len code)
        (length-bits len window ∙ sym (length-bits len code))
        (sym (append_assoc (bits len window) (bits (nbits - len) acc) after)
          ∙ ap (λ t. t ++ after) (sym split)
          ∙ e) in
    (fits, bits-injective len window code heads.0 ∙ mod-eq_of_lt (code-lt n))

-- the entry of a symbol heads its own code
Heads-self : (n : ℕ) → Heads (nth table n) (nth table n).0 (nth table n).1
Heads-self n = Heads-of_split n (nth table n).0 (nth table n).1 [] [] (le_refl _) refl

found_twice :
    (n m acc nbits : ℕ)
    → n < 257
    → m < 257
    → Heads (nth table n) acc nbits
    → Heads (nth table m) acc nbits
    → n ≡ m
found_twice n m acc nbits bn bm hn hm =
    let at_n = (match_symbol_exact acc nbits n (nth table n).1).1 (bn, refl, hn) in
    let at_m = (match_symbol_exact acc nbits m (nth table m).1).1 (bm, refl, hm) in cc (at_n, at_m)

-- Bits begin with the code of one symbol only.
pub code_unique :
    (n m : ℕ) (xs ys : List ℕ) → n < 257 → m < 257 → code_bits n ++ xs ≡ code_bits m ++ ys → n ≡ m
code_unique n m xs ys bn bm e = elim (Bool-cases (leb (nth table n).1 (nth table m).1)) [
  | inl le ↦
      found_twice n m (nth table m).0 (nth table m).1 bn bm
        (Heads-of_split n (nth table m).0 (nth table m).1 ys xs (leb→le _ _ le) (sym e))
        (Heads-self m)
  | inr gt ↦
      found_twice n m (nth table n).0 (nth table n).1 bn bm (Heads-self n)
        (Heads-of_split m (nth table n).0 (nth table n).1 xs ys (omega (arith, leb→gt _ _ gt)) e)
]

ones-append : (a b : ℕ) → ones a ++ ones b ≡ ones (b + a)
ones-append a zero = let e : a ≡ 0 + a = omega arith in append-nil (ones a) ∙ ap ones e
ones-append a (suc b) =
    let e : suc (b + a) ≡ suc b + a = omega arith in
    sym (append_assoc (ones a) (ones b) (1 ∷ []))
    ∙ ap (λ t. t ++ 1 ∷ []) (ones-append a b)
    ∙ ap ones e

pub length-ones : (k : ℕ) → length (ones k) ≡ k
length-ones zero = refl
length-ones (suc k) = length-append (ones k) (1 ∷ []) ∙ omega (arith, length-ones k)

eos_code : ones 30 ≡ code_bits 256 ++ []
unfolding bits table
eos_code = refl

eos_length : (nth table 256).1 ≡ 30
unfolding table
eos_length = refl

-- Padding begins with no code: it is the start of the end-of-string code, which is longer.
pub padding_no_code : (n r : ℕ) (more : List ℕ) → n < 257 → r < 8 → code_bits n ++ more ≢ ones r
padding_no_code n r more b short e =
    let whole : 30 - r + r ≡ 30 = omega arith in
    let padded : code_bits n ++ (more ++ ones (30 - r)) ≡ code_bits 256 ++ [] =
      sym (append_assoc (code_bits n) more (ones (30 - r)))
      ∙ ap (λ t. t ++ ones (30 - r)) e
      ∙ ones-append r (30 - r)
      ∙ ap ones whole
      ∙ eos_code in
    let same : n ≡ 256 = code_unique n 256 (more ++ ones (30 - r)) [] b (omega arith) padded in
    let width : (nth table n).1 ≡ 30 = rw same eos_length in
    omega (
      arith,
      ap length e,
      length-append (code_bits n) more,
      length-ones r,
      length-bits (nth table n).1 (nth table n).0,
      width,
    )
