-- ===== src/Huffman/BitStrings.antt =====
-- The bits of a number, highest first: the vocabulary in which the decoder is specified.
use Prim.Native.Nat.add
use native.Mathlib.Nat.{
  div-add-mod, mod-lt, mod-eq_of_lt, add-mul-mod_self_right, div-div-eq-div-mul, pow-suc, mul_comm,
}
use mathlib.Core.List.{append_assoc, append-nil}
use warp_socks.Prelude.Bytes.{pow-pos}
use warp_socks.Prelude.{
  ℕ, zero, suc, ◌+◌, ◌*◌, ◌/◌, ◌%◌, ◌^◌, ◌<◌, ◌≡◌, refl, sym, ap, ◌∙◌, List, [], ◌∷◌, ◌++◌, arith,
}

-- the `k` low bits of `n`
unfoldable pub bits : ℕ → ℕ → List ℕ
bits zero n = []
bits (suc k) n = bits k (n / 2) ++ (n % 2) ∷ []

pub half-pow : (n k : ℕ) → n / 2 / 2 ^ k ≡ n / 2 ^ suc k
half-pow n k = rw div-div-eq-div-mul (ap (λ t. n / t) (rw (pow-suc, mul_comm) refl))

-- the remainder by a power of two, one digit at a time
pub mod-step : (n k : ℕ) → n % 2 ^ suc k ≡ n / 2 % 2 ^ k * 2 + n % 2
mod-step n k =
    let r = n / 2 % 2 ^ k in
    let whole : n ≡ r * 2 + n % 2 + n / 2 / 2 ^ k * 2 ^ suc k =
      rw pow-suc (omega (arith, div-add-mod n 2, div-add-mod (n / 2) (2 ^ k))) in
    let small : r * 2 + n % 2 < 2 ^ suc k =
      rw pow-suc (omega (arith, mod-lt (n / 2) (pow-pos k))) in
    ap (λ t. t % 2 ^ suc k) whole
    ∙ add-mul-mod_self_right (r * 2 + n % 2) (n / 2 / 2 ^ k) (2 ^ suc k)
    ∙ mod-eq_of_lt small

pub bits-mod : (k n : ℕ) → bits k (n % 2 ^ k) ≡ bits k n
unfolding bits
bits-mod zero n = refl
bits-mod (suc k) n =
    let half : n % 2 ^ suc k / 2 ≡ n / 2 % 2 ^ k = omega (arith, mod-step n k) in
    let parity : n % 2 ^ suc k % 2 ≡ n % 2 = omega (arith, mod-step n k) in
    rw (half, parity, bits-mod k) refl

-- the high bits, then the low bits
pub bits-add : (a b n : ℕ) → bits (b + a) n ≡ bits a (n / 2 ^ b) ++ bits b n
unfolding bits
bits-add a zero n = rw (add.zero, append-nil) (ap (bits a) (omega arith))
bits-add a (suc b) n = rw (add.suc, bits-add a b (n / 2), half-pow, append_assoc) refl

pub div-one : (n : ℕ) → n / 2 ^ zero ≡ n
div-one n = omega arith

-- the upper part of a window of bits is a window
pub mod-div-pow : (x a b : ℕ) → x % 2 ^ (b + a) / 2 ^ b ≡ x / 2 ^ b % 2 ^ a
mod-div-pow x a zero = rw add.zero (div-one (x % 2 ^ a) ∙ sym (ap (λ t. t % 2 ^ a) (div-one x)))
mod-div-pow x a (suc b) =
    let half : x % 2 ^ suc (b + a) / 2 ≡ x / 2 % 2 ^ (b + a) = omega (arith, mod-step x (b + a)) in
    rw (add.suc, ← half-pow (x % 2 ^ suc (b + a)) b, half, mod-div-pow (x / 2) a b, half-pow x b)
      refl

pub div-pow-add : (n a b : ℕ) → n / 2 ^ a / 2 ^ b ≡ n / 2 ^ (a + b)
div-pow-add n zero b = rw add.zero (ap (λ t. t / 2 ^ b) (div-one n))
div-pow-add n (suc a) b =
    rw (add.suc, ← half-pow n a, ← half-pow n (a + b)) (div-pow-add (n / 2) a b)
