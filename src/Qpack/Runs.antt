-- ===== src/Qpack/Runs.antt =====
-- Runs of the encoder and the decoder on bytes of the source's tests, and the theorems at concrete
-- inputs.
use warp_socks.Prelude.{List, [], ◌∷◌, ◌≡◌, refl, some, none, ◌+◌, ◌≢◌, true, false, length, arith}
use warp_socks.Prelude.Exec.{ok, err, and_then}
use warp_socks.Qpack.{decode_integer, response, stuck}
use warp_socks.Qpack.Integer.{tail_bytes, integer_bytes, decode_integer-integer_bytes}
use warp_socks.Qpack.Section.{Line, indexed, literal_name, apply_lines}
use warp_socks.Qpack.Response.{
  field_section, no_fields, connect_lines, decode_headers-field_section,
  encode_connect_request-field_section,
}
use warp_socks.Qpack.Progress.{decode_headers-ne-stuck}
use warp_socks.Qpack.{
  encode_integer, encode_string, encode_connect_request, decode_headers, status_missing,
}

request :
    encode_connect_request (b'h' ∷ b':' ∷ b'1' ∷ []) (b'a' ∷ b'b' ∷ b'c' ∷ [])
    ≡ 0 ∷ 0 ∷ 0xcf ∷ 0x50 ∷ 3 ∷ b'h' ∷ b':' ∷ b'1' ∷ 0x7f ∷ 0x45 ∷ 3 ∷ b'a' ∷ b'b' ∷ b'c' ∷ []
unfolding encode_connect_request encode_string encode_integer
request = refl

status_404 : decode_headers (0 ∷ 0 ∷ 0xdb ∷ []) ≡ ok (record { status = 404; colo = none })
unfolding decode_headers
status_404 = refl

no_status : decode_headers (0 ∷ 0 ∷ []) ≡ err status_missing
unfolding decode_headers
no_status = refl

captured :
    decode_headers (
      0x00 ∷ 0x00 ∷ 0xd9 ∷ 0x2f ∷ 0x02 ∷ 0x24 ∷ 0xab ∷ 0x78 ∷ 0x1d ∷ 0x95 ∷ 0xac ∷ 0x43 ∷ 0xd0
      ∷ 0x7f ∷ 0x83 ∷ 0xcf ∷ 0x0f ∷ 0xe7 ∷ [])
    ≡ ok (record { status = 200; colo = some (b'L' ∷ b'A' ∷ b'X' ∷ []) })
unfolding decode_headers
captured = refl

abbrev colo_lines : List Line
colo_lines =
    indexed true 25
    ∷ literal_name false (record { huffman = false; raw = b'x' ∷ [] })
        (record { huffman = false; raw = b'y' ∷ [] })
    ∷ []

decode_headers-field_section_example :
    decode_headers (field_section 0 false 0 colo_lines)
    ≡ and_then (apply_lines no_fields colo_lines) response
unfolding integer_bytes tail_bytes
decode_headers-field_section_example =
    decode_headers-field_section 0 0 false colo_lines (omega arith) (omega arith) (omega arith)
      (omega arith, (tt, tt))

decode_headers-ne-stuck_example : decode_headers (0 ∷ 0 ∷ 0xff ∷ 0xff ∷ []) ≢ err stuck
decode_headers-ne-stuck_example = decode_headers-ne-stuck (0 ∷ 0 ∷ 0xff ∷ 0xff ∷ [])

-- the integer 1337 with a prefix of five bits (RFC 7541, C.1.2)
decode_integer-integer_bytes_example :
    decode_integer (0x5f ∷ 0x9a ∷ 0x0a ∷ 7 ∷ []) 0 5
    ≡ ok (1337, 0 + length (integer_bytes 5 2 1337))
unfolding integer_bytes tail_bytes
decode_integer-integer_bytes_example =
    decode_integer-integer_bytes (0x5f ∷ 0x9a ∷ 0x0a ∷ 7 ∷ []) 0 5 2 1337 (7 ∷ [])
      (omega arith, omega arith, omega arith) (omega arith) refl

encode_connect_request-field_section_example :
    encode_connect_request (b'h' ∷ b':' ∷ b'1' ∷ []) (b'a' ∷ [])
    ≡ field_section 0 false 0 (connect_lines (b'h' ∷ b':' ∷ b'1' ∷ []) (b'a' ∷ []))
encode_connect_request-field_section_example =
    encode_connect_request-field_section (b'h' ∷ b':' ∷ b'1' ∷ []) (b'a' ∷ []) (omega arith)
      (omega arith)

decoded_1337 : decode_integer (0x5f ∷ 0x9a ∷ 0x0a ∷ []) 0 5 ≡ ok (1337, 3)
unfolding decode_headers
decoded_1337 = refl
