-- ===== src/Qpack/Total.antt =====
-- The decoder on arbitrary bytes: it ends, stays inside its buffer, and no u64 wraps around.
use native.Mathlib.Nat.{mod-lt, mod-eq_of_lt, pow-le-pow_right}
use warp_socks.Prelude.{
  ℕ, zero, suc, ◌+◌, ◌*◌, ◌%◌, ◌^◌, ◌≤◌, ◌<◌, ◌≡◌, ◌≢◌, ap, ◌∙◌, List, Bool, arith, length, get_or,
  inl, inr,
}
use warp_socks.Prelude.Exec.{Result, ok, err, Result-cases}
use warp_socks.Prelude.Bytes.{pow-pos}
use warp_socks.Qpack.{Error, stuck, decode_rest, decode_integer, decode_string, huffman_result}
use warp_socks.Qpack.Integer.{shift_seven}

-- What a successful `decode_rest` returns: a place inside the buffer, and a value without wrap.
decode_rest_bounds :
    (fuel : ℕ) (buf : List ℕ) (p value shift m v end : ℕ)
    → m ≤ 256
    → shift ≤ 56
    → value < m + 2 ^ shift
    → decode_rest fuel buf p value shift ≡ ok (v, end)
    → (p < end) × (end ≤ length buf) × (v < m + 2 ^ 63)
unfolding decode_rest
decode_rest_bounds zero buf p value shift m v end hm hs hv h = cc
decode_rest_bounds (suc fuel) buf p value shift m v end hm hs hv h =
    let bound : 2 ^ shift ≤ 2 ^ 56 =
      pow-le-pow_right {n = 2} (omega arith) {i = shift} {j = 56} hs in
    let group : get_or buf p 0 % 2 ^ 7 * 2 ^ shift ≤ 127 * 2 ^ shift = grind arith in
    let small : get_or buf p 0 % 2 ^ 7 * 2 ^ shift < 2 ^ 64 = omega arith in
    let sum : value + get_or buf p 0 % 2 ^ 7 * 2 ^ shift < 2 ^ 64 = omega arith in
    ground (
      arith,
      shift_seven shift,
      mod-eq_of_lt small,
      mod-eq_of_lt sum,
      decode_rest_bounds fuel buf (p + 1) (value + get_or buf p 0 % 2 ^ 7 * 2 ^ shift) (shift + 7) m
          v end,
    )

-- On success `decode_integer` has read at least one byte and none behind the buffer, and its value is
-- below 2 ^ 63 + 256.
pub decode_integer_bounds :
    (buf : List ℕ) (pos k v end : ℕ)
    → k ≤ 8
    → decode_integer buf pos k ≡ ok (v, end)
    → (pos < end) × (end ≤ length buf) × (v < 2 ^ 63 + 256)
unfolding decode_integer
decode_integer_bounds buf pos k v end hk h =
    let bound : 2 ^ k ≤ 2 ^ 8 = pow-le-pow_right {n = 2} (omega arith) {i = k} {j = 8} hk in
    ground (
      arith,
      pow-pos k,
      decode_rest_bounds 9 buf (pos + 1) (get_or buf pos 0 % 2 ^ k) 0 256 v end (omega arith)
          (omega arith),
      mod-lt (get_or buf pos 0) (pow-pos k),
    )

decode_rest-ne-stuck :
    (fuel : ℕ) (buf : List ℕ) (p value shift : ℕ)
    → shift ≤ 56
    → 63 ≤ shift + 7 * fuel
    → decode_rest fuel buf p value shift ≢ err stuck
unfolding decode_rest
decode_rest-ne-stuck zero buf p value shift hs room = absurd (omega arith)
decode_rest-ne-stuck (suc fuel) buf p value shift hs room = ground (
  arith,
  decode_rest-ne-stuck fuel buf (p + 1)
      ((value + get_or buf p 0 % 2 ^ 7 * 2 ^ shift % 2 ^ 64) % 2 ^ 64) (shift + 7),
)

pub decode_integer-ne-stuck : (buf : List ℕ) (pos k : ℕ) → decode_integer buf pos k ≢ err stuck
unfolding decode_integer
decode_integer-ne-stuck buf pos k = ground (
  arith,
  decode_rest-ne-stuck 9 buf (pos + 1) (get_or buf pos 0 % 2 ^ k) 0 (omega arith) (omega arith),
)

pub decode_string-ne-stuck : (raw : List ℕ) (h : Bool) → decode_string raw h ≢ err stuck
unfolding decode_string huffman_result
decode_string-ne-stuck raw h = ground arith

-- what a step at `pos` may answer: no `stuck`, and a place behind `pos` that is inside the buffer
abbrev pub Advances {ℓ} : {A : Type ℓ} → ℕ → ℕ → Result Error (A × ℕ) → Type 0
Advances pos size (ok (a, n)) = (pos < n) × (n ≤ size)
Advances pos size (err e) = e ≢ stuck

pub decode_integer-Advances :
    (buf : List ℕ) (pos k : ℕ) → k ≤ 8 → Advances pos (length buf) (decode_integer buf pos k)
decode_integer-Advances buf pos k hk = elim (Result-cases (decode_integer buf pos k)) [
  | inl ((v, end), d) ↦ let (a, b, _) = decode_integer_bounds buf pos k v end hk d in rw d (a, b)
  | inr (e, d) ↦ rw d (λ s. decode_integer-ne-stuck buf pos k (d ∙ ap err s))
]
