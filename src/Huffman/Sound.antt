-- ===== src/Huffman/Sound.antt =====
-- What `decode` accepts is the code of what it returns, filled up with ones.
use native.Mathlib.Nat.{mod-eq_of_lt, pow-suc, add_comm}
use mathlib.Core.Path.{subst}
use mathlib.Core.List.{append_assoc, append-nil}
use warp_socks.Prelude.{
  ℕ, zero, suc, ◌+◌, ◌-◌, ◌*◌, ◌/◌, ◌%◌, ◌^◌, ◌<◌, ◌≡◌, ◌≢◌, refl, sym, ap, ◌∙◌, List, [], ◌∷◌,
  ◌++◌, some, arith, All, ◌==◌, Bool-cases, Option-cases, inl, inr, ==→ne,
}
use warp_socks.Prelude.Exec.{ok, and_then, ok-injective, Result-cases}
use warp_socks.Prelude.Bytes.{pow-pos, low_bits, shr, IsByte}
use warp_socks.Huffman.{match_symbol, drain, shift_in, decode_bytes, finish, decode}
use warp_socks.Huffman.Table.{table}
use warp_socks.Huffman.Steps.{drain_stop, drain_go}
use warp_socks.Huffman.BitStrings.{bits, bits-mod, bits-add}
use warp_socks.Huffman.Match.{nth, Heads, match_symbol_exact}
use warp_socks.Huffman.Width.{IsSettled, drain-IsSettled, shift_in-lt}

-- the code of one symbol, of a text, and the bits of a buffer
abbrev pub code_bits : ℕ → List ℕ
code_bits n = bits (nth table n).1 (nth table n).0

abbrev pub encoded : List ℕ → List ℕ
encoded [] = []
encoded (n ∷ text) = code_bits n ++ encoded text

abbrev pub buffer_bits : List ℕ → List ℕ
buffer_bits [] = []
buffer_bits (byte ∷ buf) = bits 8 byte ++ buffer_bits buf

abbrev pub ones : ℕ → List ℕ
ones zero = []
ones (suc k) = ones k ++ 1 ∷ []

pub encoded-append : (xs ys : List ℕ) → encoded (xs ++ ys) ≡ encoded xs ++ encoded ys
encoded-append [] ys = refl
encoded-append (x ∷ xs) ys = rw (encoded-append xs ys, append_assoc) refl

-- a code that heads the bits at hand is split off them
pub Heads-split :
    (n acc nbits : ℕ)
    → Heads (nth table n) acc nbits
    → bits nbits acc
      ≡ code_bits n ++ bits (nbits - (nth table n).1) (low_bits acc (nbits - (nth table n).1))
Heads-split n acc nbits (fits, h) =
    let len = (nth table n).1 in
    let whole : nbits - len + len ≡ nbits = omega arith in
    ap (λ t. bits t acc) (sym whole)
    ∙ bits-add len (nbits - len) acc
    ∙ ap (λ t. t ++ bits (nbits - len) acc)
        (sym (bits-mod len (shr acc (nbits - len))) ∙ ap (bits len) h)
    ∙ ap (λ t. code_bits n ++ t) (sym (bits-mod (nbits - len) acc))

-- the bits that a state stands for
abbrev pub seen : List ℕ × ℕ × ℕ → List ℕ
seen s = encoded s.0 ++ bits s.2 s.1

-- a round of the loop moves bits from the accumulator to the text, and loses none
pub seen_go :
    (out : List ℕ) (acc nbits n len : ℕ)
    → match_symbol acc nbits ≡ some (n, len)
    → n ≢ 256
    → seen (out ++ (n % 256) ∷ [], low_bits acc (nbits - len), nbits - len) ≡ seen (out, acc, nbits)
seen_go out acc nbits n len m ne =
    let (b, e, h) = (match_symbol_exact acc nbits n len).0 m in
    let byte : n % 256 ≡ n = omega arith in
    rw (byte, encoded-append, append-nil, append_assoc, Heads-split n acc nbits h, e) refl

drain_sound :
    (fuel : ℕ) (out : List ℕ) (acc nbits : ℕ) (s : List ℕ × ℕ × ℕ)
    → drain fuel out acc nbits ≡ ok s
    → seen s ≡ seen (out, acc, nbits)
unfolding drain
drain_sound zero out acc nbits s h = ap seen (sym (ok-injective h))
drain_sound (suc fuel) out acc nbits s h = elim (Option-cases (match_symbol acc nbits)) [
  | inl stop ↦ ap seen (sym (ok-injective (sym (drain_stop (suc fuel) out acc nbits stop) ∙ h)))
  | inr ((n, len), go) ↦
      let step = sym (drain_go fuel out acc nbits n len go) ∙ h in
      elim (Bool-cases (n == 256)) [
        | inl eos ↦ cc (rw eos at step)
        | inr more ↦
            drain_sound fuel (out ++ (n % 256) ∷ []) (low_bits acc (nbits - len)) (nbits - len) s
              (rw more at step)
            ∙ seen_go out acc nbits n len go (==→ne _ _ more)
      ]
]

-- shifting a byte in puts its bits after those at hand
pub bits_shift :
    (acc nbits byte : ℕ)
    → acc < 2 ^ nbits
    → nbits < 30
    → IsByte byte
    → bits (nbits + 8) (shift_in acc byte) ≡ bits nbits acc ++ bits 8 byte
bits_shift acc nbits byte small narrow b =
    let (exact, _) = shift_in-lt acc nbits byte small narrow b in
    let high : (acc * 256 + byte) / 2 ^ 8 ≡ acc = omega arith in
    let low : (acc * 256 + byte) % 2 ^ 8 ≡ byte = omega arith in
    ap (bits (nbits + 8)) exact
    ∙ ap (λ t. bits t (acc * 256 + byte)) (add_comm nbits 8)
    ∙ bits-add nbits 8 (acc * 256 + byte)
    ∙ ap (λ t. bits nbits t ++ bits 8 (acc * 256 + byte)) high
    ∙ ap (λ t. bits nbits acc ++ t) (sym (bits-mod 8 (acc * 256 + byte)) ∙ ap (bits 8) low)

-- Over a whole buffer the state stays settled, and what it stands for grows by the buffer's bits.
pub decode_bytes_sound :
    (buf out : List ℕ) (acc nbits : ℕ) (s : List ℕ × ℕ × ℕ)
    → All IsByte buf
    → IsSettled (out, acc, nbits)
    → decode_bytes buf out acc nbits ≡ ok s
    → IsSettled s × (seen s ≡ seen (out, acc, nbits) ++ buffer_bits buf)
unfolding decode_bytes
decode_bytes_sound [] out acc nbits s bytes set h =
    subst (λ t. IsSettled t × (seen t ≡ seen (out, acc, nbits) ++ [])) (ok-injective h)
      (set, sym (append-nil _))
decode_bytes_sound (byte ∷ buf) out acc nbits s (b, bs) (small, narrow) h =
    elim (Result-cases (drain (nbits + 8) out (shift_in acc byte) (nbits + 8))) [
      | inl ((out', acc', nbits'), d) ↦
          let (exact, fits) = shift_in-lt acc nbits byte small narrow b in
          let set' =
            drain-IsSettled (nbits + 8) out (shift_in acc byte) (nbits + 8) (out', acc', nbits')
              (omega arith) fits d in
          let (set'', e) = decode_bytes_sound buf out' acc' nbits' s bs set' (rw d at h) in
          (
            set'',
            e
                ∙ ap (λ t. t ++ buffer_bits buf)
                    (drain_sound (nbits + 8) out (shift_in acc byte) (nbits + 8)
                        (out', acc', nbits') d
                      ∙ ap (λ t. encoded out ++ t) (bits_shift acc nbits byte small narrow b)
                      ∙ sym (append_assoc (encoded out) (bits nbits acc) (bits 8 byte)))
                ∙ append_assoc (seen (out, acc, nbits)) (bits 8 byte) (buffer_bits buf),
          )
      | inr (x, d) ↦ cc (rw d at h)
    ]

pub bits-ones : (k : ℕ) → bits k (2 ^ k - 1) ≡ ones k
unfolding bits
bits-ones zero = refl
bits-ones (suc k) =
    let half : (2 ^ suc k - 1) / 2 ≡ 2 ^ k - 1 = omega (arith, pow-suc 2 k, pow-pos k) in
    let odd : (2 ^ suc k - 1) % 2 ≡ 1 = omega (arith, pow-suc 2 k, pow-pos k) in
    rw (half, odd, bits-ones k) refl

-- `finish` returns the text only if fewer than eight bits are left, all of them ones.
finish_sound :
    (out : List ℕ) (acc nbits : ℕ) (text : List ℕ)
    → acc < 2 ^ nbits
    → finish out acc nbits ≡ ok text
    → (out ≡ text) × (nbits < 8) × (bits nbits acc ≡ ones nbits)
unfolding finish
finish_sound out acc zero text small h = unfold bits in (ground arith, omega arith, refl)
finish_sound out acc (suc k) text small h =
    let facts : (out ≡ text) × (suc k < 8) × (low_bits acc (suc k) ≡ 2 ^ suc k - 1) =
      ground arith in
    (facts.0, facts.1, ap (bits (suc k)) (sym (mod-eq_of_lt small) ∙ facts.2) ∙ bits-ones (suc k))

pub decode_lem :
    (buf : List ℕ) → decode buf ≡ and_then (decode_bytes buf [] 0 0) (λ s. finish s.0 s.1 s.2)
unfolding decode
decode_lem buf = refl

-- If `decode` returns a text, the bits of the buffer are the codes of the text's bytes, in order,
-- and after them fewer than eight ones.
pub decode_sound :
    (buf text : List ℕ)
    → All IsByte buf
    → decode buf ≡ ok text
    → (r : ℕ) × (r < 8) × (buffer_bits buf ≡ encoded text ++ ones r)
unfolding bits
decode_sound buf text bytes h = elim (Result-cases (decode_bytes buf [] 0 0)) [
  | inl ((out, acc, nbits), d) ↦
      let ((small, _), e) =
        decode_bytes_sound buf [] 0 0 (out, acc, nbits) bytes (omega arith, omega arith) d in
      let done = rw d at (sym (decode_lem buf) ∙ h) in
      let (same, short, pad) = finish_sound out acc nbits text small done in
      (
        nbits,
        short,
        sym e ∙ ap (λ t. encoded out ++ t) pad ∙ ap (λ t. encoded t ++ ones nbits) same,
      )
  | inr (x, d) ↦ cc (rw d at (sym (decode_lem buf) ∙ h))
]
