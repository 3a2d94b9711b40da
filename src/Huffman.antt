-- ===== src/Huffman.antt =====
-- outbound/masque/huffman.rs: decoding of Huffman strings in header fields. The u64 accumulator
-- keeps its wrap-around, and `acc << 8 | byte` is written as a sum, its bits being disjoint.
pub mod Table
pub mod BitStrings
pub mod Match
mod Steps
pub mod Width
pub mod Sound
mod Unique
pub mod Complete
mod Runs
use warp_socks.Prelude.{
  ℕ, zero, suc, ◌+◌, ◌-◌, ◌*◌, ◌%◌, ◌^◌, List, [], ◌∷◌, ◌++◌, Option, none, some, Bool, not, ◌&&◌,
  ltb, leb, ◌==◌, if◌then◌else◌,
}
use warp_socks.Prelude.Exec.{Result, ok, err, and_then}
use warp_socks.Prelude.Bytes.{low_bits, shr}
use Table.{table}

pub data Error : Type 0 where
  eos_in_stream whole_byte_left bad_padding : Error

-- the entry at the head of `rest` has the number `sym`
pub match_from : ℕ → List (ℕ × ℕ) → ℕ → ℕ → Option (ℕ × ℕ)
match_from sym [] acc nbits = none
match_from sym ((code, len) ∷ rest) acc nbits =
    if leb len nbits && low_bits (shr acc (nbits - len)) len == code
    then some (sym, len)
    else match_from (sym + 1) rest acc nbits

pub match_symbol : ℕ → ℕ → Option (ℕ × ℕ)
match_symbol = match_from 0 table

-- The `while let` loop over the bits at hand. Every code has a bit at least, so `nbits` rounds do.
pub drain : ℕ → List ℕ → ℕ → ℕ → Result Error (List ℕ × ℕ × ℕ)
drain zero out acc nbits = ok (out, acc, nbits)
drain (suc fuel) out acc nbits = elim (match_symbol acc nbits) [
  | none ↦ ok (out, acc, nbits)
  | some (sym, len) ↦
      if sym == 256
      then err eos_in_stream
      else drain fuel (out ++ (sym % 256) ∷ []) (low_bits acc (nbits - len)) (nbits - len)
]

abbrev pub shift_in : ℕ → ℕ → ℕ
shift_in acc byte = (acc * 256 + byte) % 2 ^ 64

pub decode_bytes : List ℕ → List ℕ → ℕ → ℕ → Result Error (List ℕ × ℕ × ℕ)
decode_bytes [] out acc nbits = ok (out, acc, nbits)
decode_bytes (byte ∷ buf) out acc nbits =
    and_then (drain (nbits + 8) out (shift_in acc byte) (nbits + 8))
      (λ s. decode_bytes buf s.0 s.1 s.2)

-- Fewer than 8 bits may be left over, and all of them are ones.
pub finish : List ℕ → ℕ → ℕ → Result Error (List ℕ)
finish out acc nbits =
    if leb 8 nbits
    then err whole_byte_left
    else if ltb 0 nbits && not (low_bits acc nbits == 2 ^ nbits - 1)
    then err bad_padding
    else ok out

unfoldable pub decode : List ℕ → Result Error (List ℕ)
unfolding decode_bytes drain match_symbol match_from table finish
decode buf = and_then (decode_bytes buf [] 0 0) (λ s. finish s.0 s.1 s.2)
