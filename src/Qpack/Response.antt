-- ===== src/Qpack/Response.antt =====
-- `decode_headers` on the bytes of any list of field lines, and `encode_connect_request` in terms of
-- the same lines.
use mathlib.Core.List.{append_assoc, append-nil}
use warp_socks.Prelude.{
  ℕ, zero, suc, ◌+◌, ◌-◌, ◌*◌, ◌^◌, ◌≤◌, ◌<◌, ◌≡◌, refl, sym, ap, ◌∙◌, List, [], ◌∷◌, ◌++◌, All,
  Bool, true, false, none, arith, length, length-append, length-drop, drop, ltb, drop-append,
}
use warp_socks.Prelude.Exec.{ok, and_then, and_then_at}
use warp_socks.Qpack.{Fields, field_line, field_lines, response, decode_headers, skip_integer}
use warp_socks.Qpack.Integer.{
  tail_bytes, integer_bytes, decode_integer-integer_bytes, integer_bytes-pos,
  encode_integer-integer_bytes,
}
use warp_socks.Qpack.Lines.{Literal, bit, literal_bytes, literal_prefix, literal_bytes-pos}
use warp_socks.Qpack.{encode_string, encode_connect_request}
use warp_socks.Qpack.Section.{
  Line, indexed, name_reference, literal_name, line_bytes, apply_line, apply_lines, section_bytes,
  IsIndexed, field_line-line_bytes,
}

line_bytes-pos : (l : Line) → 0 < length (line_bytes l)
line_bytes-pos (indexed static idx) = integer_bytes-pos 6 (2 + bit static) idx
line_bytes-pos (name_reference never static idx value) =
    let head = integer_bytes 4 (4 + 2 * bit never + bit static) idx in
    omega (arith, length-append head (literal_bytes value), literal_bytes-pos value)
line_bytes-pos (literal_name never name value) =
    let head = integer_bytes 3 (4 + 2 * bit never + bit name.huffman) (length name.raw) in
    omega (
      arith,
      length-append head (name.raw ++ literal_bytes value),
      integer_bytes-pos 3 (4 + 2 * bit never + bit name.huffman) (length name.raw),
    )

-- One round of the loop while there are bytes left, and its end.
field_lines_more :
    (fuel : ℕ) (payload : List ℕ) (pos : ℕ) (f : Fields)
    → pos < length payload
    → field_lines (suc fuel) payload pos f
      ≡ and_then (field_line payload pos f) (λ (f', n). field_lines fuel payload n f')
unfolding field_lines
field_lines_more fuel payload pos f h =
    let t : ltb pos (length payload) ≡ true = ground arith in rw t refl

field_lines_done :
    (fuel : ℕ) (payload : List ℕ) (pos : ℕ) (f : Fields)
    → length payload ≤ pos
    → field_lines fuel payload pos f ≡ ok f
unfolding field_lines
field_lines_done zero payload pos f h =
    let t : ltb pos (length payload) ≡ false = ground arith in rw t refl
field_lines_done (suc fuel) payload pos f h =
    let t : ltb pos (length payload) ≡ false = ground arith in rw t refl

field_lines-section_bytes :
    (lines : List Line) (fuel : ℕ) (payload : List ℕ) (pos : ℕ) (f : Fields)
    → length payload < 2 ^ 62
    → All IsIndexed lines
    → pos ≤ length payload
    → length payload - pos ≤ fuel
    → drop pos payload ≡ section_bytes lines
    → field_lines fuel payload pos f ≡ apply_lines f lines
field_lines-section_bytes [] fuel payload pos f fits idx inside room e =
    field_lines_done fuel payload pos f (omega (arith, ap length e, length-drop pos payload))
field_lines-section_bytes (l ∷ lines) zero payload pos f fits idx inside room e = absurd (
    omega (
      arith,
      ap length e,
      length-drop pos payload,
      length-append (line_bytes l) (section_bytes lines),
      line_bytes-pos l,
    ))
field_lines-section_bytes (l ∷ lines) (suc fuel) payload pos f fits (small, idx) inside room e =
    let pos' = line_bytes-pos l in
    let size = length-append (line_bytes l) (section_bytes lines) in
    let within : pos < length payload = omega (arith, ap length e, length-drop pos payload) in
    let (rest, len) = drop-append pos payload (line_bytes l) (section_bytes lines) e inside in
    let round = field_line-line_bytes payload f pos l (section_bytes lines) fits small within e in
    field_lines_more fuel payload pos f within
    ∙ rw round (
        and_then_at (apply_line f l) (pos + length (line_bytes l))
          (λ f' n. field_lines fuel payload n f') (λ f'. apply_lines f' lines)
          (λ f'.
            field_lines-section_bytes lines fuel payload (pos + length (line_bytes l)) f' fits idx
              (omega arith) (omega arith) rest))

abbrev pub no_fields : Fields
no_fields = record { status = none; colo = none }

-- a field section: the insert count, the base with its sign, and the lines
abbrev pub field_section : ℕ → Bool → ℕ → List Line → List ℕ
field_section count sign base lines =
    integer_bytes 8 0 count ++ (integer_bytes 7 (bit sign) base ++ section_bytes lines)

pub decode_headers_lem :
    (payload : List ℕ)
    → decode_headers payload
      ≡ and_then (skip_integer payload 0 8) (λ p.
        and_then
          (skip_integer payload p 7)
          (λ pos. and_then (field_lines (length payload) payload pos no_fields) response))
unfolding decode_headers
decode_headers_lem payload = refl

-- On every field section `decode_headers` returns what its lines say, one after the other, or the
-- first error among them; whatever the insert count and the base.
pub decode_headers-field_section :
    (count base : ℕ) (sign : Bool) (lines : List Line)
    → length (field_section count sign base lines) < 2 ^ 62
    → count < 2 ^ 63
    → base < 2 ^ 63
    → All IsIndexed lines
    → decode_headers (field_section count sign base lines)
      ≡ and_then (apply_lines no_fields lines) response
unfolding skip_integer
decode_headers-field_section count base sign lines fits hc hb idx =
    let payload = field_section count sign base lines in
    let first = integer_bytes 8 0 count in
    let second = integer_bytes 7 (bit sign) base in
    let d =
      decode_integer-integer_bytes payload 0 8 0 count (second ++ section_bytes lines) (omega arith)
        hc refl in
    let (rest, len) =
      drop-append 0 payload first (second ++ section_bytes lines) refl (omega arith) in
    let d' =
      decode_integer-integer_bytes payload (0 + length first) 7 (bit sign) base
        (section_bytes lines) (literal_prefix sign) hb rest in
    let (rest', len') =
      drop-append (0 + length first) payload second (section_bytes lines) rest
        (omega (arith, length-append first (second ++ section_bytes lines))) in
    let loop =
      field_lines-section_bytes lines (length payload) payload (0 + length first + length second)
        no_fields fits idx (omega arith) (omega arith) rest' in
    decode_headers_lem payload ∙ rw (d, d', loop) refl

abbrev pub plain : List ℕ → Literal
plain raw = record { huffman = false; raw = raw }

encode_string-plain :
    (out s : List ℕ) → length s < 2 ^ 62 → encode_string out s ≡ out ++ literal_bytes (plain s)
unfolding encode_string
encode_string-plain out s h =
    ap (λ t. t ++ s) (encode_integer-integer_bytes out 7 0 (length s) (omega arith) (omega arith))
    ∙ append_assoc out (integer_bytes 7 0 (length s)) s

-- The lines of a request: method CONNECT, the authority, and the token, never indexed.
abbrev pub connect_lines : List ℕ → List ℕ → List Line
connect_lines authority token =
    indexed true 15
    ∷ name_reference false true 0 (plain authority)
    ∷ name_reference true true 84 (plain token)
    ∷ []

byte_0 : integer_bytes 8 0 0 ≡ 0x00 ∷ []
unfolding integer_bytes
byte_0 = refl

byte_0' : integer_bytes 7 0 0 ≡ 0x00 ∷ []
unfolding integer_bytes
byte_0' = refl

byte_15 : integer_bytes 6 3 15 ≡ 0b11001111 ∷ []
unfolding integer_bytes
byte_15 = refl

byte_name : integer_bytes 4 5 0 ≡ 0b01010000 ∷ []
unfolding integer_bytes
byte_name = refl

byte_84 : integer_bytes 4 7 84 ≡ 0x7f ∷ 0x45 ∷ []
unfolding integer_bytes tail_bytes
byte_84 = refl

request_lines :
    (authority token : List ℕ)
    → (0x00 ∷ 0x00 ∷ 0b11001111 ∷ 0b01010000 ∷ [])
        ++ (literal_bytes (plain authority)
            ++ ((0x7f ∷ 0x45 ∷ []) ++ (literal_bytes (plain token) ++ [])))
      ≡ field_section 0 false 0 (connect_lines authority token)
request_lines authority token = rw (byte_0, byte_0', byte_15, byte_name, byte_84) refl

-- The request that is sent is the field section of those three lines, with count and base 0.
pub encode_connect_request-field_section :
    (authority token : List ℕ)
    → length authority < 2 ^ 62
    → length token < 2 ^ 62
    → encode_connect_request authority token
      ≡ field_section 0 false 0 (connect_lines authority token)
unfolding encode_connect_request
encode_connect_request-field_section authority token ha ht =
    let start = 0x00 ∷ 0x00 ∷ 0b11001111 ∷ 0b01010000 ∷ [] in
    let names = 0x7f ∷ 0x45 ∷ [] in
    let a = literal_bytes (plain authority) in
    let b = literal_bytes (plain token) in
    encode_string-plain (encode_string start authority ++ names) token ht
    ∙ ap (λ t. (t ++ names) ++ b) (encode_string-plain start authority ha)
    ∙ append_assoc (start ++ a) names b
    ∙ append_assoc start a (names ++ b)
    ∙ ap (λ t. start ++ (a ++ (names ++ t))) (sym (append-nil b))
    ∙ request_lines authority token
