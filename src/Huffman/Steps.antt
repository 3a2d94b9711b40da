-- ===== src/Huffman/Steps.antt =====
-- One round of the decoder's inner loop, by what `match_symbol` answers.
use warp_socks.Prelude.{
  ℕ, zero, suc, ◌-◌, ◌%◌, ◌≡◌, refl, List, [], ◌∷◌, ◌++◌, none, some, ◌==◌, if◌then◌else◌,
}
use warp_socks.Prelude.Exec.{ok, err}
use warp_socks.Prelude.Bytes.{low_bits}
use warp_socks.Huffman.{match_symbol, drain, eos_in_stream}

pub drain_stop :
    (fuel : ℕ) (out : List ℕ) (acc nbits : ℕ)
    → match_symbol acc nbits ≡ none
    → drain fuel out acc nbits ≡ ok (out, acc, nbits)
unfolding drain
drain_stop zero out acc nbits m = refl
drain_stop (suc fuel) out acc nbits m = rw (m, drain) refl

pub drain_go :
    (fuel : ℕ) (out : List ℕ) (acc nbits n len : ℕ)
    → match_symbol acc nbits ≡ some (n, len)
    → drain (suc fuel) out acc nbits ≡ (
        if n == 256
        then err eos_in_stream
        else drain fuel (out ++ (n % 256) ∷ []) (low_bits acc (nbits - len)) (nbits - len))
unfolding drain
drain_go fuel out acc nbits n len m = rw (m, drain) refl
