-- ===== src/Prelude/Bytes.antt =====
-- Bytes are numbers below 256 and a buffer is a list of them. A mask of low bits is `%`, a right
-- shift is `/`; the masks of high bits stay `bit_and`, with their meaning proved over all bytes.
use Prim.Native.Nat.{ℕ, zero, suc, ◌+◌, ◌*◌, ◌/◌, ◌%◌, ◌^◌, ◌≤◌, ◌<◌, bit_and, bit_or}
use mathlib.Core.Path.{◌≡◌, refl}
use mathlib.Core.Bool.{Bool, true, false}
use mathlib.Core.Logic.{ite}
use mathlib.Core.List.{List, [], ◌∷◌}
use native.Mathlib.Nat.{
  pow-suc, mul-add-div_right, mul-add-mod_self_right, mod-eq_of_lt, div-eq_of_lt,
}
use mathlib.Core.Path.{◌∙◌}
use native.Mathlib.Decide.{ℕ_discrete}
use native.Mathlib.Omega.{arith}

abbrev pub IsByte : ℕ → Type 0
IsByte b = b < 256

abbrev pub low_bits : ℕ → ℕ → ℕ
low_bits x k = x % 2 ^ k

abbrev pub shr : ℕ → ℕ → ℕ
shr x k = x / 2 ^ k

-- `u16::to_be_bytes` and `u16::from_be_bytes`
abbrev pub to_be16 : ℕ → List ℕ
to_be16 n = n / 256 % 256 ∷ n % 256 ∷ []

abbrev pub from_be16 : ℕ → ℕ → ℕ
from_be16 hi lo = hi * 256 + lo

abbrev pub from_be32 : ℕ → ℕ → ℕ → ℕ → ℕ
from_be32 a b c d = ((a * 256 + b) * 256 + c) * 256 + d

pub from_be16-to_be16 : (n : ℕ) → n < 2 ^ 16 → from_be16 (n / 256 % 256) (n % 256) ≡ n
from_be16-to_be16 n h = omega arith

pub pow-pos : (k : ℕ) → 0 < 2 ^ k
pow-pos zero = omega arith
pow-pos (suc k) = rw pow-suc (omega (arith, pow-pos k))

module _ (f g : ℕ → ℕ) where
  agree_below : ℕ → Bool
  unfolding ℕ_discrete
  agree_below zero = true
  agree_below (suc n) = ite (ℕ_discrete (f n) (g n)) (agree_below n) false

  agree_below→eq : (n : ℕ) → agree_below n ≡ true → (i : ℕ) → i < n → f i ≡ g i
  unfolding agree_below
  agree_below→eq zero e i h = absurd (omega arith)
  agree_below→eq (suc n) e i h = ground (arith, agree_below→eq n (ground arith) i)

pub and_0x80 : (b : ℕ) → b < 256 → bit_and b 0x80 ≡ b / 128 * 128
unfolding agree_below
and_0x80 = agree_below→eq _ _ 256 refl

pub and_0xc0 : (b : ℕ) → b < 256 → bit_and b 0xc0 ≡ b / 64 * 64
unfolding agree_below
and_0xc0 = agree_below→eq _ _ 256 refl

pub and_0xe0 : (b : ℕ) → b < 256 → bit_and b 0xe0 ≡ b / 32 * 32
unfolding agree_below
and_0xe0 = agree_below→eq _ _ 256 refl

pub and_0x40 : (b : ℕ) → b < 256 → bit_and b 0x40 ≡ b / 64 % 2 * 64
unfolding agree_below
and_0x40 = agree_below→eq _ _ 256 refl

pub or_0x80 : (b : ℕ) → b < 128 → bit_or b 0x80 ≡ b + 128
unfolding agree_below
or_0x80 = agree_below→eq _ _ 128 refl

or_table :
    (k : ℕ) → k ≤ 8 → agree_below (λ x. bit_or (x / 2 ^ k * 2 ^ k) (x % 2 ^ k)) (λ x. x) 256 ≡ true
unfolding agree_below
or_table zero h = refl
or_table (suc zero) h = refl
or_table (suc (suc zero)) h = refl
or_table (suc (suc (suc zero))) h = refl
or_table (suc (suc (suc (suc zero)))) h = refl
or_table (suc (suc (suc (suc (suc zero))))) h = refl
or_table (suc (suc (suc (suc (suc (suc zero)))))) h = refl
or_table (suc (suc (suc (suc (suc (suc (suc zero))))))) h = refl
or_table (suc (suc (suc (suc (suc (suc (suc (suc zero)))))))) h = refl
or_table (suc (suc (suc (suc (suc (suc (suc (suc (suc k))))))))) h = absurd (omega arith)

-- `|` of a byte whose `k` low bits are clear with `k` bits
pub or_prefix :
    (k q v : ℕ) → k ≤ 8 → v < 2 ^ k → q * 2 ^ k + v < 256 → bit_or (q * 2 ^ k) v ≡ q * 2 ^ k + v
or_prefix k q v h small byte =
    let pos : 0 < 2 ^ k = omega arith in
    let high : (q * 2 ^ k + v) / 2 ^ k ≡ q =
      mul-add-div_right pos q v ∙ rw (div-eq_of_lt small) (omega arith) in
    let low : (q * 2 ^ k + v) % 2 ^ k ≡ v =
      mul-add-mod_self_right q (2 ^ k) v ∙ mod-eq_of_lt small in
    rw (high, low) at (agree_below→eq _ _ 256 (or_table k h) (q * 2 ^ k + v) byte)

pub and_0x08 : (b : ℕ) → b < 256 → bit_and b 0x08 ≡ b / 8 % 2 * 8
unfolding agree_below
and_0x08 = agree_below→eq _ _ 256 refl
