-- ===== src/Qpack/Integer.antt =====
-- Prefixed integers: what `encode_integer` writes, `decode_integer` reads.
use mathlib.Core.WellFounded.{Acc}
use mathlib.Core.List.{append_assoc}
use native.Mathlib.Nat.{div-add-mod, mul-add-mod_self_right, mod-eq_of_lt, pow-le-pow_right}
use native.Mathlib.Numerals.{towards_suc, add-one}
use warp_socks.Prelude.{
  ℕ, zero, suc, ◌+◌, ◌-◌, ◌*◌, ◌/◌, ◌%◌, ◌^◌, ◌≤◌, ◌<◌, ◌≡◌, refl, ap, ◌∙◌, List, [], ◌∷◌, ◌++◌,
  arith, length, drop, ltb, if◌then◌else◌, lt_wf, drop-cons, Bool-cases, ltb→lt, ltb→ge, inl, inr,
}
use warp_socks.Prelude.Exec.{ok}
use warp_socks.Prelude.Bytes.{pow-pos, or_prefix, or_0x80, and_0x80}
use warp_socks.Qpack.{encode_rest, encode_integer, decode_rest, decode_integer}

-- the bytes after a full prefix, for `rest` below 128 ^ (k + 1)
unfoldable pub tail_bytes : ℕ → ℕ → List ℕ
tail_bytes zero rest = rest ∷ []
tail_bytes (suc k) rest =
    let more = (rest % 128 + 128) ∷ tail_bytes k (rest / 128) in
    if ltb rest 128 then rest ∷ [] else more

encode_rest-tail_bytes :
    (k : ℕ) (out : List ℕ) (rest : ℕ) (w : Acc ◌<◌ rest)
    → rest < 128 ^ suc k
    → encode_rest out rest w ≡ out ++ tail_bytes k rest
unfolding encode_rest tail_bytes
encode_rest-tail_bytes zero out rest (Acc.intro _ smaller) h = ground arith
encode_rest-tail_bytes (suc k) out rest (Acc.intro _ smaller) h =
    let head : List ℕ = (rest % 128 + 128) ∷ [] in
    grind (
      arith,
      or_0x80 (rest % 128),
      λ (w : Acc ◌<◌ (rest / 128)).
          encode_rest-tail_bytes k (out ++ head) (rest / 128) w (omega arith),
      append_assoc out head (tail_bytes k (rest / 128)),
    )

pub shift_seven : (s : ℕ) → 2 ^ (s + 7) ≡ 128 * 2 ^ s
shift_seven s = simp towards_suc (omega arith)

-- One round of `decode_rest`, on a byte that ends the integer and on one that goes on.
last_byte :
    (fuel : ℕ) (buf : List ℕ) (p value shift b : ℕ) {after : List ℕ}
    → drop p buf ≡ b ∷ after
    → b < 128
    → value + b * 2 ^ shift < 2 ^ 64
    → decode_rest (suc fuel) buf p value shift ≡ ok (value + b * 2 ^ shift, p + 1)
unfolding decode_rest
last_byte fuel buf p value shift b e hb fits =
    let (lt, at, _) = drop-cons p buf 0 e in ground (arith, and_0x80 b, mod-eq_of_lt fits)

inner_byte :
    (fuel : ℕ) (buf : List ℕ) (p value shift g : ℕ) {after : List ℕ}
    → drop p buf ≡ (g + 128) ∷ after
    → g < 128
    → shift + 7 ≤ 56
    → value + g * 2 ^ shift < 2 ^ 64
    → decode_rest (suc fuel) buf p value shift
      ≡ decode_rest fuel buf (p + 1) (value + g * 2 ^ shift) (shift + 7)
unfolding decode_rest
inner_byte fuel buf p value shift g e hg hs fits =
    let (lt, at, _) = drop-cons p buf 0 e in
    let group : (g + 128) % 128 ≡ g = omega arith in
    ground (arith, and_0x80 (g + 128), mod-eq_of_lt fits)

seven_bits :
    (rest shift : ℕ) → rest * 2 ^ shift ≡ rest % 128 * 2 ^ shift + rest / 128 * 2 ^ (shift + 7)
seven_bits rest shift =
    let high = ap (λ (power : ℕ). rest / 128 * power) (shift_seven shift) in
    let whole = ap (λ (n : ℕ). n * 2 ^ shift) (div-add-mod rest 128) in omega (arith, high, whole)

decode_rest-tail_bytes :
    (k fuel : ℕ) (buf : List ℕ) (p value shift rest : ℕ) (after : List ℕ)
    → k < fuel
    → shift + 7 * k ≤ 56
    → rest < 128 ^ suc k
    → value + rest * 2 ^ shift < 2 ^ 64
    → drop p buf ≡ tail_bytes k rest ++ after
    → decode_rest fuel buf p value shift
      ≡ ok (value + rest * 2 ^ shift, p + length (tail_bytes k rest))
unfolding tail_bytes
decode_rest-tail_bytes k zero buf p value shift rest after hf hs hr fits e = absurd (omega arith)
decode_rest-tail_bytes zero (suc fuel) buf p value shift rest after hf hs hr fits e =
    last_byte fuel buf p value shift rest e (omega arith) fits
decode_rest-tail_bytes (suc k) (suc fuel) buf p value shift rest after hf hs hr fits e =
    elim (Bool-cases (ltb rest 128)) [
      | inl small ↦
          rw small (last_byte fuel buf p value shift rest (rw small at e) (ltb→lt _ _ small) fits)
      | inr big ↦
          let e' = rw big at e in
          let part = seven_bits rest shift in
          let step =
            inner_byte fuel buf p value shift (rest % 128) e' (omega arith) (omega arith)
              (omega arith) in
          let (_, _, tail) = drop-cons p buf 0 e' in
          let tail' : drop (p + 1) buf ≡ tail_bytes k (rest / 128) ++ after = rw add-one tail in
          let ih =
            decode_rest-tail_bytes k fuel buf (p + 1) (value + rest % 128 * 2 ^ shift) (shift + 7)
              (rest / 128) after (omega arith) (omega arith) (omega arith) (omega arith) tail' in
          let sum : value + rest % 128 * 2 ^ shift + rest / 128 * 2 ^ (shift + 7)
              ≡ value + rest * 2 ^ shift =
            omega arith in
          rw big (step ∙ ih ∙ ground arith)
    ]

-- The bytes of `value` behind the bits `q` of a byte whose `k` low bits are the prefix (RFC 7541, 5.1).
unfoldable pub integer_bytes : ℕ → ℕ → ℕ → List ℕ
integer_bytes k q value =
    if ltb value (2 ^ k - 1)
    then (q * 2 ^ k + value) ∷ []
    else (q * 2 ^ k + (2 ^ k - 1)) ∷ tail_bytes 8 (value - (2 ^ k - 1))

-- `q` are the high bits of a byte over a prefix of `k` bits
abbrev pub IsPrefix : ℕ → ℕ → Type 0
IsPrefix k q = (1 ≤ k) × (k ≤ 8) × (q * 2 ^ k + (2 ^ k - 1) < 256)

-- `encode_integer` appends `integer_bytes`.
pub encode_integer-integer_bytes :
    (out : List ℕ) (k q value : ℕ)
    → IsPrefix k q
    → value < 2 ^ 63
    → encode_integer out value k (q * 2 ^ k) ≡ out ++ integer_bytes k q value
unfolding encode_integer integer_bytes
encode_integer-integer_bytes out k q value (lo, hi, byte) fits =
    let pos = pow-pos k in
    elim (Bool-cases (ltb value (2 ^ k - 1))) [
      | inl small ↦
          let v : value % 256 ≡ value = mod-eq_of_lt (omega (arith, ltb→lt _ _ small)) in
          rw
            (
              small,
              v,
              or_prefix k q value hi (omega (arith, ltb→lt _ _ small))
                  (omega (arith, ltb→lt _ _ small)),
            )
            refl
      | inr big ↦
          let v : (2 ^ k - 1) % 256 ≡ 2 ^ k - 1 = mod-eq_of_lt (omega arith) in
          rw (big, v, or_prefix k q (2 ^ k - 1) hi (omega arith) byte)
            (encode_rest-tail_bytes 8 (out ++ (q * 2 ^ k + (2 ^ k - 1)) ∷ []) (value - (2 ^ k - 1))
                (lt_wf.apply (value - (2 ^ k - 1))) (omega arith)
              ∙ append_assoc out ((q * 2 ^ k + (2 ^ k - 1)) ∷ [])
                  (tail_bytes 8 (value - (2 ^ k - 1))))
    ]

decode_integer_short :
    (buf : List ℕ) (pos k b : ℕ) {after : List ℕ}
    → drop pos buf ≡ b ∷ after
    → b % 2 ^ k < 2 ^ k - 1
    → decode_integer buf pos k ≡ ok (b % 2 ^ k, pos + 1)
unfolding decode_integer
decode_integer_short buf pos k b e h = let (lt, at, _) = drop-cons pos buf 0 e in ground arith

decode_integer_long :
    (buf : List ℕ) (pos k b : ℕ) {after : List ℕ}
    → drop pos buf ≡ b ∷ after
    → b % 2 ^ k ≡ 2 ^ k - 1
    → decode_integer buf pos k ≡ decode_rest 9 buf (pos + 1) (2 ^ k - 1) 0
unfolding decode_integer
decode_integer_long buf pos k b e h = let (lt, at, _) = drop-cons pos buf 0 e in ground arith

-- `decode_integer` at a place where `integer_bytes` stand returns the value and the place after them.
pub decode_integer-integer_bytes :
    (buf : List ℕ) (pos k q value : ℕ) (after : List ℕ)
    → IsPrefix k q
    → value < 2 ^ 63
    → drop pos buf ≡ integer_bytes k q value ++ after
    → decode_integer buf pos k ≡ ok (value, pos + length (integer_bytes k q value))
unfolding integer_bytes
decode_integer-integer_bytes buf pos k q value after (lo, hi, byte) fits e =
    let pos' = pow-pos k in
    elim (Bool-cases (ltb value (2 ^ k - 1))) [
      | inl small ↦
          let lt = ltb→lt _ _ small in
          let low : (q * 2 ^ k + value) % 2 ^ k ≡ value =
            mul-add-mod_self_right q (2 ^ k) value ∙ mod-eq_of_lt (omega arith) in
          rw small (
            decode_integer_short buf pos k (q * 2 ^ k + value) (rw small at e) (omega arith)
            ∙ ap (λ t. ok (t, pos + 1)) low)
      | inr big ↦
          let max = 2 ^ k - 1 in
          let ge = ltb→ge _ _ big in
          let bound : 2 ^ k ≤ 2 ^ 8 = pow-le-pow_right {n = 2} (omega arith) {i = k} {j = 8} hi in
          let e' = rw big at e in
          let low : (q * 2 ^ k + max) % 2 ^ k ≡ max =
            mul-add-mod_self_right q (2 ^ k) max ∙ mod-eq_of_lt (omega arith) in
          let (_, _, tail) = drop-cons pos buf 0 e' in
          let tail' : drop (pos + 1) buf ≡ tail_bytes 8 (value - max) ++ after = rw add-one tail in
          let sum : max + (value - max) * 2 ^ 0 ≡ value = omega arith in
          rw big (
            decode_integer_long buf pos k (q * 2 ^ k + max) e' low
            ∙ decode_rest-tail_bytes 8 9 buf (pos + 1) max 0 (value - max) after (omega arith)
                (omega arith) (omega arith) (omega arith) tail'
            ∙ ground arith)
    ]

-- the first byte of an integer holds the bits before the prefix
pub first_byte :
    (k q value : ℕ)
    → IsPrefix k q
    → (b : ℕ) × (t : List ℕ) × (integer_bytes k q value ≡ b ∷ t)
      × (b < 256)
      × (q * 2 ^ k ≤ b)
      × (b < q * 2 ^ k + 2 ^ k)
unfolding integer_bytes
first_byte k q value (lo, hi, byte) = elim (Bool-cases (ltb value (2 ^ k - 1))) [
  | inl small ↦
      let lt = ltb→lt _ _ small in
      (q * 2 ^ k + value, [], rw small refl, omega arith, omega arith, omega arith)
  | inr big ↦ (
    q * 2 ^ k + (2 ^ k - 1),
    tail_bytes 8 (value - (2 ^ k - 1)),
    rw big refl,
    byte,
    omega arith,
    omega (arith, pow-pos k),
  )
]

length-tail_bytes : (k rest : ℕ) → length (tail_bytes k rest) ≤ suc k
unfolding tail_bytes
length-tail_bytes zero rest = omega arith
length-tail_bytes (suc k) rest = ground (arith, length-tail_bytes k (rest / 128))

pub length-integer_bytes : (k q value : ℕ) → length (integer_bytes k q value) ≤ 10
unfolding integer_bytes
length-integer_bytes k q value = ground (arith, length-tail_bytes 8 (value - (2 ^ k - 1)))

pub integer_bytes-pos : (k q value : ℕ) → 0 < length (integer_bytes k q value)
unfolding integer_bytes
integer_bytes-pos k q value = ground arith
