-- ===== src/VarInt.antt =====
-- outbound/masque/varint.rs, which wraps the integers of `quinn_proto`. That crate is not part of
-- the repository: its encoder and decoder are an argument, with the round trip that RFC 9000
-- (section 16) documents for values below 2 ^ 62.
pub mod Quic
use warp_socks.Prelude.{
  ℕ, suc, ◌/◌, [], ◌∷◌, ◌^◌, ◌<◌, ◌≡◌, List, ◌++◌, Option, none, some, length, ltb, if◌then◌else◌,
}

pub record VarIntCodec : Type 0 where
  pub encode : ℕ → List ℕ
  -- the value, and how many bytes it took
  pub decode : List ℕ → Option (ℕ × ℕ)
  pub decode-encode :
      (value : ℕ) (rest : List ℕ)
      → value < 2 ^ 62
      → decode (encode value ++ rest) ≡ some (value, length (encode value))

-- The first two bits of an encoded integer give its length (RFC 9000, section 16).
abbrev pub HeadsLength : List ℕ → Type 0
HeadsLength [] = ⊥
HeadsLength (first ∷ more) = suc (length more) ≡ 2 ^ (first / 64)

pub record IsPrefixed (codec : VarIntCodec) : Type 0 where
  pub heads : (value : ℕ) → value < 2 ^ 62 → HeadsLength (codec.encode value)

module _ (codec : VarIntCodec) where
  -- `none` is the panic of `expect`, for a value that no QUIC integer can hold
  unfoldable pub write : List ℕ → ℕ → Option (List ℕ)
  write out value = if ltb value (2 ^ 62) then some (out ++ codec.encode value) else none

  unfoldable pub read : List ℕ → Option (ℕ × ℕ)
  read bytes = codec.decode bytes
