-- ===== src/Huffman/Runs.antt =====
-- Runs of the decoder on captured header bytes, and its theorems at concrete inputs.
use warp_socks.Prelude.{ℕ, ◌≡◌, ◌↔◌, ◌<◌, refl, List, [], ◌∷◌, ◌++◌, some, arith}
use warp_socks.Prelude.Exec.{ok, err}
use warp_socks.Huffman.{match_symbol, decode_bytes, decode, eos_in_stream}
use warp_socks.Huffman.Table.{table}
use warp_socks.Huffman.Match.{nth, Heads, match_symbol_exact}
use warp_socks.Huffman.Sound.{encoded, buffer_bits, ones}
use warp_socks.Huffman.Complete.{decode_iff}

decode_lax : decode (0xcf ∷ 0x0f ∷ 0xe7 ∷ []) ≡ ok (b'L' ∷ b'A' ∷ b'X' ∷ [])
unfolding decode
decode_lax = refl

decode_colo :
    decode (0x24 ∷ 0xab ∷ 0x78 ∷ 0x1d ∷ 0x95 ∷ 0xac ∷ 0x43 ∷ 0xd0 ∷ 0x7f ∷ [])
    ≡ ok (99 ∷ 102 ∷ 45 ∷ 119 ∷ 97 ∷ 114 ∷ 112 ∷ 45 ∷ 99 ∷ 111 ∷ 108 ∷ 111 ∷ [])
unfolding decode
decode_colo = refl

decode_eos : decode (0xff ∷ 0xff ∷ 0xff ∷ 0xff ∷ []) ≡ err eos_in_stream
unfolding decode
decode_eos = refl

abbrev lax : List ℕ
lax = b'L' ∷ b'A' ∷ b'X' ∷ []

abbrev lax_code : List ℕ
lax_code = 0xcf ∷ 0x0f ∷ 0xe7 ∷ []

decode_iff_example :
    (decode lax_code ≡ ok lax)
    ↔ ((r : ℕ) × (r < 8) × (buffer_bits lax_code ≡ encoded lax ++ ones r))
decode_iff_example = decode_iff lax_code lax (omega arith) (omega arith)

match_symbol_exact_example :
    (match_symbol 0x1f 8 ≡ some (b'a', 5))
    ↔ ((b'a' < 257) × ((nth table b'a').1 ≡ 5) × Heads (nth table b'a') 0x1f 8)
match_symbol_exact_example = match_symbol_exact 0x1f 8 b'a' 5

lax_state : decode_bytes lax_code [] 0 0 ≡ ok (lax, 7, 3)
unfolding decode
lax_state = refl
