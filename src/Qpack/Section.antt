-- ===== src/Qpack/Section.antt =====
-- A whole field section: `decode_headers` on the bytes of any list of field lines.
use mathlib.Core.List.{append_assoc}
use warp_socks.Prelude.{
  ℕ, ◌+◌, ◌*◌, ◌^◌, ◌≤◌, ◌<◌, ◌≡◌, refl, ap, ◌∙◌, List, [], ◌∷◌, ◌++◌, Bool, true, false, not,
  arith, length, length-append, drop, ◌==◌, if◌then◌else◌, bit_and, drop-cons, drop-append,
}
use warp_socks.Prelude.Exec.{Result, ok, err, and_then}
use warp_socks.Prelude.Bytes.{and_0x80, and_0x40, and_0xc0, and_0xe0, and_0x08}
use warp_socks.Qpack.{
  Error, Fields, set_status, set_colo, literal_line, field_line, name_length_overflow,
  name_out_of_range,
}
use warp_socks.Qpack.Integer.{integer_bytes, IsPrefix, decode_integer-integer_bytes, first_byte}
use warp_socks.Qpack.Lines.{
  Literal, bit, literal_bytes, literal_text, read_literal_value-literal_bytes,
  skip_literal_value-literal_bytes, slice-raw, end_of_inside, literal_bytes-pos,
}

-- A field line of RFC 9204: an indexed one (of the static table or not), one whose name is a
-- reference (with its bits N and T), and one whose name is written out (with its bit N).
pub data Line : Type 0 where
  indexed : Bool → ℕ → Line
  name_reference : Bool → Bool → ℕ → Literal → Line
  literal_name : Bool → Literal → Literal → Line

abbrev pub line_bytes : Line → List ℕ
line_bytes (indexed static idx) = integer_bytes 6 (2 + bit static) idx
line_bytes (name_reference never static idx value) =
    integer_bytes 4 (4 + 2 * bit never + bit static) idx ++ literal_bytes value
line_bytes (literal_name never name value) =
    integer_bytes 3 (4 + 2 * bit never + bit name.huffman) (length name.raw)
    ++ (name.raw ++ literal_bytes value)

-- what a line does to the fields
abbrev pub apply_line : Fields → Line → Result Error Fields
apply_line f (indexed static idx) = ok (if static then set_status f idx else f)
apply_line f (name_reference never static idx value) = ok f
apply_line f (literal_name never name value) =
    and_then (literal_text name) (λ n. and_then (literal_text value) (λ v. ok (set_colo f n v)))

abbrev pub apply_lines : Fields → List Line → Result Error Fields
apply_lines f [] = ok f
apply_lines f (l ∷ lines) = and_then (apply_line f l) (λ f'. apply_lines f' lines)

abbrev pub section_bytes : List Line → List ℕ
section_bytes [] = []
section_bytes (l ∷ lines) = line_bytes l ++ section_bytes lines

-- the table indices are numbers that the integer format can hold
abbrev pub IsIndexed : Line → Type 0
IsIndexed (indexed _ idx) = idx < 2 ^ 63
IsIndexed (name_reference _ _ idx _) = idx < 2 ^ 63
IsIndexed (literal_name _ _ _) = Unit {0}

bit-le : (b : Bool) → bit b ≤ 1
bit-le true = omega arith
bit-le false = omega arith

name_flag :
    (b n : ℕ) (h : Bool)
    → b < 256
    → n ≤ 1
    → (4 + 2 * n + bit h) * 2 ^ 3 ≤ b
    → b < (4 + 2 * n + bit h) * 2 ^ 3 + 2 ^ 3
    → not (bit_and b 0x08 == 0) ≡ h
name_flag b n true byte small lo hi = ground (arith, and_0x08 b)
name_flag b n false byte small lo hi = ground (arith, and_0x08 b)

-- the name is decoded before the value is, and the fields change after both
both_strings :
    (f : Fields) (name value : Result Error (List ℕ)) (end : ℕ)
    → and_then {B = Fields × ℕ} name (λ n.
      and_then {B = Fields × ℕ}
        (and_then {B = List ℕ × ℕ} value (λ v. ok (v, end)))
        (λ (v, e). ok (set_colo f n v, e)))
      ≡ and_then {B = Fields × ℕ}
          (and_then name (λ n. and_then value (λ v. ok (set_colo f n v))))
          (λ f'. ok (f', end))
both_strings f (ok n) (ok v) end = refl
both_strings f (ok n) (err e) end = refl
both_strings f (err e) value end = refl

module _ (payload : List ℕ) (fits : length payload < 2 ^ 62) (f : Fields) (pos : ℕ)
    (inside : pos < length payload) (after : List ℕ) where
  indexed_line :
      (static : Bool) (idx : ℕ)
      → idx < 2 ^ 63
      → drop pos payload ≡ integer_bytes 6 (2 + bit static) idx ++ after
      → field_line payload pos f
        ≡ ok (
          if static then set_status f idx else f,
          pos + length (integer_bytes 6 (2 + bit static) idx),
        )
  unfolding field_line
  indexed_line true idx small e =
      let (b, t, eb, byte, lo, hi) = first_byte 6 3 idx (omega arith) in
      let (_, at, _) = drop-cons pos payload 0 (e ∙ ap (λ u. u ++ after) eb) in
      let d = decode_integer-integer_bytes payload pos 6 3 idx after (omega arith) small e in
      rw (at, d) (ground (arith, and_0x80 b, and_0x40 b))
  indexed_line false idx small e =
      let (b, t, eb, byte, lo, hi) = first_byte 6 2 idx (omega arith) in
      let (_, at, _) = drop-cons pos payload 0 (e ∙ ap (λ u. u ++ after) eb) in
      let d = decode_integer-integer_bytes payload pos 6 2 idx after (omega arith) small e in
      rw (at, d) (ground (arith, and_0x80 b, and_0x40 b))

  reference_line :
      (never static : Bool) (idx : ℕ) (value : Literal)
      → idx < 2 ^ 63
      → drop pos payload ≡ line_bytes (name_reference never static idx value) ++ after
      → field_line payload pos f
        ≡ ok (f, pos + length (line_bytes (name_reference never static idx value)))
  unfolding field_line
  reference_line never static idx value small e =
      let q = 4 + 2 * bit never + bit static in
      let low : q < 8 = omega (arith, bit-le never, bit-le static) in
      let head = integer_bytes 4 q idx in
      let prefix : IsPrefix 4 q = omega arith in
      let (b, t, eb, byte, lo, hi) = first_byte 4 q idx prefix in
      let e' : drop pos payload ≡ head ++ (literal_bytes value ++ after) =
        e ∙ append_assoc head (literal_bytes value) after in
      let (_, at, _) =
        drop-cons pos payload 0 (e' ∙ ap (λ u. u ++ (literal_bytes value ++ after)) eb) in
      let d =
        decode_integer-integer_bytes payload pos 4 q idx (literal_bytes value ++ after) prefix small
          e' in
      let (rest, len) =
        drop-append pos payload head (literal_bytes value ++ after) e' (omega arith) in
      let within : pos + length head < length payload =
        omega (arith, literal_bytes-pos value, length-append (literal_bytes value) after) in
      let skip =
        skip_literal_value-literal_bytes payload fits (pos + length head) value after within rest in
      let end : pos + length head + length (literal_bytes value)
          ≡ pos + length (head ++ literal_bytes value) =
        omega (arith, length-append head (literal_bytes value)) in
      let test : (bit_and b 0x80 ≡ 0) × (bit_and b 0xc0 ≡ 0x40) =
        omega (arith, and_0x80 b, and_0xc0 b) in
      rw (at, d, test.0, test.1, skip) (ap (λ u. ok (f, u)) end)

  named_line :
      (never : Bool) (name value : Literal)
      → drop pos payload ≡ line_bytes (literal_name never name value) ++ after
      → field_line payload pos f
        ≡ and_then
            (apply_line f (literal_name never name value))
            (λ f'. ok (f', pos + length (line_bytes (literal_name never name value))))
  unfolding field_line literal_line
  named_line never name value e =
      let q = 4 + 2 * bit never + bit name.huffman in
      let low : q < 8 = omega (arith, bit-le never, bit-le name.huffman) in
      let head = integer_bytes 3 q (length name.raw) in
      let tail = literal_bytes value in
      let prefix : IsPrefix 3 q = omega arith in
      let (b, t, eb, byte, lo, hi) = first_byte 3 q (length name.raw) prefix in
      let e' : drop pos payload ≡ head ++ (name.raw ++ (tail ++ after)) =
        e
        ∙ append_assoc head (name.raw ++ tail) after
        ∙ ap (λ u. head ++ u) (append_assoc name.raw tail after) in
      let (_, at, _) =
        drop-cons pos payload 0 (e' ∙ ap (λ u. u ++ (name.raw ++ (tail ++ after))) eb) in
      let (rest, len) =
        drop-append pos payload head (name.raw ++ (tail ++ after)) e' (omega arith) in
      let size = length-append name.raw (tail ++ after) in
      let (rest', len') =
        drop-append (pos + length head) payload name.raw (tail ++ after) rest (omega arith) in
      let room : length name.raw < 2 ^ 63 = omega arith in
      let d =
        decode_integer-integer_bytes payload pos 3 q (length name.raw) (name.raw ++ (tail ++ after))
          prefix room e' in
      let within : pos + length head + length name.raw < length payload =
        omega (arith, literal_bytes-pos value, length-append tail after) in
      let end =
        end_of_inside payload fits name_length_overflow name_out_of_range (pos + length head)
          (length name.raw) (omega arith) in
      let text = slice-raw payload fits (pos + length head) name.raw (tail ++ after) rest in
      let read =
        read_literal_value-literal_bytes payload fits (pos + length head + length name.raw) value
          after within rest' in
      let whole : pos + length head + length name.raw + length tail
          ≡ pos + length (head ++ (name.raw ++ tail)) =
        omega (arith, length-append head (name.raw ++ tail), length-append name.raw tail) in
      let test : (bit_and b 0x80 ≡ 0) × (bit_and b 0xc0 ≡ 0) × (bit_and b 0xe0 ≡ 0x20) =
        omega (arith, and_0x80 b, and_0xc0 b, and_0xe0 b) in
      let flag = name_flag b (bit never) name.huffman byte (bit-le never) lo hi in
      rw (at, test.0, test.1, test.2, flag, d, end, text, read, ← whole)
        (both_strings f (literal_text name) (literal_text value)
          (pos + length head + length name.raw + length tail))

-- The decoder's round on the bytes of a line does what the line says, and ends behind it.
pub field_line-line_bytes :
    (payload : List ℕ) (f : Fields) (pos : ℕ) (l : Line) (after : List ℕ)
    → length payload < 2 ^ 62
    → IsIndexed l
    → pos < length payload
    → drop pos payload ≡ line_bytes l ++ after
    → field_line payload pos f
      ≡ and_then (apply_line f l) (λ f'. ok (f', pos + length (line_bytes l)))
field_line-line_bytes payload f pos (indexed static idx) after fits small inside e =
    indexed_line payload fits f pos inside after static idx small e
field_line-line_bytes payload f pos (name_reference never static idx value) after fits small inside
      e =
    reference_line payload fits f pos inside after never static idx value small e
field_line-line_bytes payload f pos (literal_name never name value) after fits small inside e =
    named_line payload fits f pos inside after never name value e
