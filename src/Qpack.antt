-- ===== src/Qpack.antt =====
-- outbound/masque/qpack.rs: the field sections and frames of an HTTP/3 CONNECT. A Rust u64 or usize
-- keeps its wrap-around; `buf[pos]` is read only where the code has tested `pos`.
pub mod Integer
pub mod Lines
pub mod Section
pub mod Response
pub mod Total
pub mod Progress
pub mod Frames
mod Runs
use warp_socks.Prelude.{
  ℕ, zero, suc, ◌+◌, ◌-◌, ◌*◌, ◌%◌, ◌/◌, ◌^◌, ◌<◌, List, [], ◌∷◌, ◌++◌, Option, none, some, Bool,
  true, false, not, ◌&&◌, ltb, leb, ◌==◌, if◌then◌else◌, arith, length, get_or, take, drop, bit_or,
  bit_and, lt_wf,
}
use mathlib.Core.Logic.{dite}
use mathlib.Core.WellFounded.{Acc}
use native.Mathlib.Decide.{dec_lt}
use warp_socks.Prelude.Exec.{Result, ok, err, and_then}
use warp_socks.Prelude.Bytes.{low_bits, shr}
use warp_socks.Prelude.Utf8.{is_utf8, bytes_eq}
use warp_socks.Huffman
use warp_socks.VarInt
use warp_socks.VarInt.{VarIntCodec}

-- the texts of the source's errors; `stuck` is none of them: a loop of the model ran out of fuel
pub data Error : Type 0 where
  integer_out_of_range continuation_out_of_range integer_too_long : Error
  name_length_overflow name_out_of_range : Error
  value_start_out_of_range value_length_overflow value_out_of_range : Error
  bad_huffman post_base_field status_missing : Error
  stuck : Error

shift_shrinks : (rest : ℕ) → 127 < rest → rest / 128 < rest
shift_shrinks rest h = omega arith

-- `while rest >= 128`, then the last byte
pub encode_rest : List ℕ → (rest : ℕ) → Acc ◌<◌ rest → List ℕ
encode_rest out rest (Acc.intro _ smaller) =
    dite (dec_lt 127 rest)
      (λ more.
        encode_rest (out ++ (bit_or (low_bits rest 7) 0x80) ∷ []) (shr rest 7)
          (smaller _ (shift_shrinks rest more)))
      (λ _. out ++ (rest % 256) ∷ [])

unfoldable pub encode_integer : List ℕ → ℕ → ℕ → ℕ → List ℕ
encode_integer out value prefix_bits prefix_max =
    let max = 2 ^ prefix_bits - 1 in
    if ltb value max
    then out ++ (bit_or prefix_max (value % 256)) ∷ []
    else encode_rest (out ++ (bit_or prefix_max (max % 256)) ∷ []) (value - max)
        (lt_wf.apply (value - max))

unfoldable pub encode_string : List ℕ → List ℕ → List ℕ
encode_string out s = encode_integer out (length s) 7 0x00 ++ s

module _ (codec : VarIntCodec) where
  -- `none` is the panic of `varint::write`
  pub write_frame : List ℕ → ℕ → List ℕ → Option (List ℕ)
  write_frame out frame_type payload = elim (VarInt.write codec out frame_type) [
    | none ↦ none
    | some out' ↦ elim (VarInt.write codec out' (length payload)) [
      | none ↦ none
      | some out'' ↦ some (out'' ++ payload)
    ]
  ]

  pub headers_frame : List ℕ → Option (List ℕ)
  unfolding write_frame
  headers_frame qpack_payload = write_frame [] 0x01 qpack_payload

  pub data_frame : List ℕ → List ℕ → Option (List ℕ)
  unfolding write_frame
  data_frame out payload = write_frame out 0x00 payload

  pub control_stream_prelude : Option (List ℕ)
  unfolding write_frame
  control_stream_prelude = write_frame (0x00 ∷ []) 0x04 []

unfoldable pub encode_connect_request : List ℕ → List ℕ → List ℕ
encode_connect_request authority bearer_token =
    let out = 0x00 ∷ 0x00 ∷ 0b11001111 ∷ 0b01010000 ∷ [] in
    let out' = encode_string out authority in encode_string (out' ++ 0x7f ∷ 0x45 ∷ []) bearer_token

abbrev byte_at : List ℕ → ℕ → ℕ
byte_at buf pos = get_or buf pos 0

-- The loop over the bytes that continue an integer. It ends after nine rounds: `shift` passes 56.
pub decode_rest : ℕ → List ℕ → ℕ → ℕ → ℕ → Result Error (ℕ × ℕ)
decode_rest zero buf p value shift = err stuck
decode_rest (suc fuel) buf p value shift =
    let b = byte_at buf p in
    let value' = (value + low_bits b 7 * 2 ^ shift % 2 ^ 64) % 2 ^ 64 in
    let more = decode_rest fuel buf (p + 1) value' (shift + 7) in
    if leb (length buf) p
    then err continuation_out_of_range
    else if bit_and b 0x80 == 0
    then ok (value', p + 1)
    else if ltb 56 (shift + 7)
    then err integer_too_long
    else more

pub decode_integer : List ℕ → ℕ → ℕ → Result Error (ℕ × ℕ)
decode_integer buf pos prefix_bits =
    let max = 2 ^ prefix_bits - 1 in
    if leb (length buf) pos
    then err integer_out_of_range
    else let value = low_bits (byte_at buf pos) prefix_bits in
      if ltb value max then ok (value, pos + 1) else decode_rest 9 buf (pos + 1) value 0

pub skip_integer : List ℕ → ℕ → ℕ → Result Error ℕ
skip_integer buf pos prefix_bits = and_then (decode_integer buf pos prefix_bits) (λ r. ok r.1)

huffman_result : Result Huffman.Error (List ℕ) → Result Error (List ℕ)
huffman_result (ok text) = ok text
huffman_result (err _) = err bad_huffman

pub decode_string : List ℕ → Bool → Result Error (List ℕ)
unfolding huffman_result
decode_string raw huffman = if huffman then huffman_result (Huffman.decode raw) else ok raw

-- `&payload[start..end]`
abbrev slice : List ℕ → ℕ → ℕ → List ℕ
slice buf start end = take (end - start) (drop start buf)

-- `start.checked_add(len as usize)`, then the test of the end
pub end_of : Error → Error → List ℕ → ℕ → ℕ → Result Error ℕ
end_of overflow outside payload start len =
    if leb (2 ^ 64) (start + len)
    then err overflow
    else if ltb (length payload) (start + len)
    then err outside
    else ok (start + len)

pub read_literal_value : List ℕ → ℕ → Result Error (List ℕ × ℕ)
read_literal_value payload pos =
    if leb (length payload) pos
    then err value_start_out_of_range
    else let huffman = not (bit_and (byte_at payload pos) 0x80 == 0) in
      and_then (decode_integer payload pos 7) (λ (len, start).
        and_then (end_of value_length_overflow value_out_of_range payload start len) (λ end.
          and_then (decode_string (slice payload start end) huffman) (λ value. ok (value, end))))

pub skip_literal_value : List ℕ → ℕ → Result Error ℕ
skip_literal_value payload pos =
    and_then (decode_integer payload pos 7)
      (λ (len, start). end_of value_length_overflow value_out_of_range payload start len)

pub static_status : ℕ → Option ℕ
static_status idx =
    if idx == 24
    then some 103
    else if idx == 25
    then some 200
    else if idx == 26
    then some 304
    else if idx == 27
    then some 404
    else if idx == 28
    then some 503
    else if idx == 63
    then some 100
    else if idx == 64
    then some 204
    else if idx == 65
    then some 206
    else if idx == 66
    then some 302
    else if idx == 67
    then some 400
    else if idx == 68
    then some 403
    else if idx == 69
    then some 421
    else if idx == 70
    then some 425
    else if idx == 71
    then some 500
    else none

-- the variables of the loop over the field lines
pub record Fields : Type 0 where
  pub status : Option ℕ
  pub colo : Option (List ℕ)

pub set_status : Fields → ℕ → Fields
unfolding static_status
set_status f idx =
    if idx == 25
    then record f { status = some 200 }
    else elim (static_status idx) [ none ↦ f | some code ↦ record f { status = some code } ]

-- "cf-warp-colo"
abbrev pub colo_name : List ℕ
colo_name = 99 ∷ 102 ∷ 45 ∷ 119 ∷ 97 ∷ 114 ∷ 112 ∷ 45 ∷ 99 ∷ 111 ∷ 108 ∷ 111 ∷ []

pub set_colo : Fields → List ℕ → List ℕ → Fields
unfolding is_utf8
set_colo f name value =
    if bytes_eq name colo_name
    then record f { colo = if is_utf8 value then some value else none }
    else f

-- a field line whose name is written out
pub literal_line : List ℕ → ℕ → Fields → Result Error (Fields × ℕ)
literal_line payload pos f =
    let name_huffman = not (bit_and (byte_at payload pos) 0x08 == 0) in
    and_then (decode_integer payload pos 3) (λ (name_len, n).
      and_then (end_of name_length_overflow name_out_of_range payload n name_len) (λ name_end.
        and_then (decode_string (slice payload n name_end) name_huffman) (λ name.
          and_then (read_literal_value payload name_end)
            (λ (value, new_pos). ok (set_colo f name value, new_pos)))))

-- One round of the loop: the field line at `pos`.
pub field_line : List ℕ → ℕ → Fields → Result Error (Fields × ℕ)
field_line payload pos f =
    let b = byte_at payload pos in
    if not (bit_and b 0x80 == 0)
    then and_then (decode_integer payload pos 6)
        (λ (idx, n). ok (if not (bit_and b 0x40 == 0) then set_status f idx else f, n))
    else if bit_and b 0xc0 == 0x40
    then and_then (decode_integer payload pos 4)
        (λ (_, n). and_then (skip_literal_value payload n) (λ end. ok (f, end)))
    else if bit_and b 0xe0 == 0x20
    then literal_line payload pos f
    else err post_base_field

-- `while pos < payload.len()`: every line takes a byte at least, so `length payload` rounds do
pub field_lines : ℕ → List ℕ → ℕ → Fields → Result Error Fields
field_lines zero payload pos f = if ltb pos (length payload) then err stuck else ok f
field_lines (suc fuel) payload pos f =
    let rest = and_then (field_line payload pos f) (λ (f', n). field_lines fuel payload n f') in
    if ltb pos (length payload) then rest else ok f

pub record ResponseHeaders : Type 0 where
  pub status : ℕ
  pub colo : Option (List ℕ)

pub response : Fields → Result Error ResponseHeaders
response f = elim f.status [
  | none ↦ err status_missing
  | some status ↦ ok (record { status = status; colo = f.colo })
]

unfoldable pub decode_headers : List ℕ → Result Error ResponseHeaders
unfolding skip_integer field_line field_lines response Huffman.decode decode_integer decode_rest
    literal_line set_status skip_literal_value end_of decode_string read_literal_value set_colo
decode_headers payload = and_then (skip_integer payload 0 8) (λ p.
    and_then (skip_integer payload p 7) (λ pos.
      and_then (field_lines (length payload) payload pos (record { status = none; colo = none }))
        response))
