-- ===== src/VarInt/Quic.antt =====
-- The integers of RFC 9000 (section 16), written out: a codec that meets the interface.
use warp_socks.Prelude.{
  refl, ℕ, ◌+◌, ◌-◌, ◌*◌, ◌/◌, ◌%◌, ◌^◌, ◌<◌, ◌≡◌, List, [], ◌∷◌, ◌++◌, Option, none, some, arith,
  length, Bool-cases, ltb, if◌then◌else◌, inl, inr,
}
use warp_socks.VarInt.{VarIntCodec, HeadsLength, IsPrefixed}

-- the `k` bytes of `v`, highest first
abbrev big_endian2 : ℕ → List ℕ
big_endian2 v = v / 256 ∷ v % 256 ∷ []

abbrev big_endian4 : ℕ → List ℕ
big_endian4 v = v / 2 ^ 24 ∷ v / 2 ^ 16 % 256 ∷ v / 256 % 256 ∷ v % 256 ∷ []

encode : ℕ → List ℕ
encode v =
    if ltb v 64
    then v ∷ []
    else if ltb v (2 ^ 14)
    then big_endian2 (v + 2 ^ 14)
    else if ltb v (2 ^ 30)
    then big_endian4 (v + 2 ^ 31)
    else big_endian4 (v / 2 ^ 32 + 3 * 2 ^ 30) ++ big_endian4 (v % 2 ^ 32)

abbrev value4 : ℕ → ℕ → ℕ → ℕ → ℕ
value4 a b c d = ((a * 256 + b) * 256 + c) * 256 + d

decode8 : ℕ → List ℕ → Option (ℕ × ℕ)
decode8 a (b ∷ c ∷ d ∷ e ∷ f ∷ g ∷ h ∷ rest) =
    some (value4 (a - 192) b c d * 2 ^ 32 + value4 e f g h, 8)
decode8 a _ = none

decode4 : ℕ → List ℕ → Option (ℕ × ℕ)
decode4 a (b ∷ c ∷ d ∷ rest) = some (value4 (a - 128) b c d, 4)
decode4 a _ = none

decode2 : ℕ → List ℕ → Option (ℕ × ℕ)
decode2 a [] = none
decode2 a (b ∷ rest) = some ((a - 64) * 256 + b, 2)

decode : List ℕ → Option (ℕ × ℕ)
unfolding decode2 decode4 decode8
decode [] = none
decode (a ∷ rest) =
    if ltb a 64
    then some (a, 1)
    else if ltb a 128
    then decode2 a rest
    else if ltb a 192
    then decode4 a rest
    else decode8 a rest

decode-encode :
    (v : ℕ) (rest : List ℕ) → v < 2 ^ 62 → decode (encode v ++ rest) ≡ some (v, length (encode v))
unfolding encode decode
decode-encode v rest h = elim (Bool-cases (ltb v 64)) [
  | inl a ↦ rw a (ground arith)
  | inr a ↦ elim (Bool-cases (ltb v (2 ^ 14))) [
    | inl b ↦ rw (a, b) (ground arith)
    | inr b ↦ elim (Bool-cases (ltb v (2 ^ 30))) [
      | inl c ↦ rw (a, b, c) (ground arith)
      | inr c ↦ rw (a, b, c) (ground arith)
    ]
  ]
]

pub quic : VarIntCodec
quic = record { encode = encode; decode = decode; decode-encode = decode-encode }

encode-HeadsLength : (v : ℕ) → v < 2 ^ 62 → HeadsLength (encode v)
unfolding encode
encode-HeadsLength v h = elim (Bool-cases (ltb v 64)) [
  | inl x ↦ rw (x, HeadsLength) (let none : v / 64 ≡ 0 = ground arith in rw none refl)
  | inr x ↦ elim (Bool-cases (ltb v (2 ^ 14))) [
    | inl y ↦
        rw (x, y, HeadsLength) (let one : (v + 2 ^ 14) / 256 / 64 ≡ 1 = ground arith in rw one refl)
    | inr y ↦ elim (Bool-cases (ltb v (2 ^ 30))) [
      | inl z ↦
          rw (x, y, z, HeadsLength)
            (let two : (v + 2 ^ 31) / 2 ^ 24 / 64 ≡ 2 = ground arith in rw two refl)
      | inr z ↦
          rw (x, y, z, HeadsLength)
            (let three : (v / 2 ^ 32 + 3 * 2 ^ 30) / 2 ^ 24 / 64 ≡ 3 = ground arith in
              rw three refl)
    ]
  ]
]

pub quic-IsPrefixed : IsPrefixed quic
unfolding quic encode
quic-IsPrefixed = record { heads = encode-HeadsLength }
