-- ===== src/Qpack/Lines.antt =====
-- Field lines as data, with the bytes that RFC 9204 (section 4.5) gives them: what the decoder does
-- on the bytes of a line, in terms of the line.
use mathlib.Core.List.{append_assoc}
use warp_socks.Prelude.{
  ℕ, ◌+◌, ◌-◌, ◌*◌, ◌^◌, ◌≤◌, ◌<◌, ◌≡◌, refl, sym, ap, ◌∙◌, List, ◌++◌, Bool, true, false, not,
  arith, length, length-append, drop, take, take-append_length, get_or, leb, ◌==◌, bit_and,
  drop-cons, drop-append,
}
use warp_socks.Prelude.Exec.{Result, ok, and_then}
use warp_socks.Prelude.Bytes.{and_0x80}
use warp_socks.Qpack.{
  Error, decode_integer, end_of, decode_string, read_literal_value, skip_literal_value,
  value_length_overflow, value_out_of_range,
}
use warp_socks.Qpack.Integer.{integer_bytes, IsPrefix, decode_integer-integer_bytes, first_byte}

-- a string literal: whether it is Huffman coded, and its bytes as sent
pub record Literal : Type 0 where
  pub huffman : Bool
  pub raw : List ℕ

abbrev pub bit : Bool → ℕ
bit true = 1
bit false = 0

abbrev pub literal_bytes : Literal → List ℕ
literal_bytes s = integer_bytes 7 (bit s.huffman) (length s.raw) ++ s.raw

abbrev pub literal_text : Literal → Result Error (List ℕ)
literal_text s = decode_string s.raw s.huffman

pub literal_prefix : (h : Bool) → IsPrefix 7 (bit h)
literal_prefix true = omega arith
literal_prefix false = omega arith

pub literal_bytes-pos : (s : Literal) → 0 < length (literal_bytes s)
literal_bytes-pos s =
    let (b, t, e, byte, lo, hi) =
      first_byte 7 (bit s.huffman) (length s.raw) (literal_prefix s.huffman) in
    omega (arith, ap length e, length-append (integer_bytes 7 (bit s.huffman) (length s.raw)) s.raw)

flag_of_byte :
    (b : ℕ) (h : Bool)
    → b < 256
    → bit h * 2 ^ 7 ≤ b
    → b < bit h * 2 ^ 7 + 2 ^ 7
    → not (bit_and b 0x80 == 0) ≡ h
flag_of_byte b true byte lo hi = ground (arith, and_0x80 b)
flag_of_byte b false byte lo hi = ground (arith, and_0x80 b)

module _ (payload : List ℕ) (fits : length payload < 2 ^ 62) where
  -- the place of a string: after its length, `raw` bytes that lie in the payload
  literal_place :
      (pos : ℕ) (s : Literal) (after : List ℕ)
      → pos < length payload
      → drop pos payload ≡ literal_bytes s ++ after
      → (start : ℕ) × (decode_integer payload pos 7 ≡ ok (length s.raw, start))
        × (start + length s.raw ≡ pos + length (literal_bytes s))
        × (drop start payload ≡ s.raw ++ after)
        × (start + length s.raw ≤ length payload)
  literal_place pos s after inside e =
      let head = integer_bytes 7 (bit s.huffman) (length s.raw) in
      let e' : drop pos payload ≡ head ++ (s.raw ++ after) = e ∙ append_assoc head s.raw after in
      let (rest, len) = drop-append pos payload head (s.raw ++ after) e' (omega arith) in
      let size : length s.raw + length after ≡ length (s.raw ++ after) =
        sym (length-append s.raw after) in
      (
        pos + length head,
        decode_integer-integer_bytes payload pos 7 (bit s.huffman) (length s.raw) (s.raw ++ after)
            (literal_prefix s.huffman) (omega arith) e',
        omega (arith, length-append head s.raw),
        rest,
        omega arith,
      )

  pub end_of_inside :
      (overflow outside : Error) (start len : ℕ)
      → start + len ≤ length payload
      → end_of overflow outside payload start len ≡ ok (start + len)
  unfolding end_of
  end_of_inside overflow outside start len h = ground arith

  pub skip_literal_value-literal_bytes :
      (pos : ℕ) (s : Literal) (after : List ℕ)
      → pos < length payload
      → drop pos payload ≡ literal_bytes s ++ after
      → skip_literal_value payload pos ≡ ok (pos + length (literal_bytes s))
  unfolding skip_literal_value
  skip_literal_value-literal_bytes pos s after inside e =
      let (start, d, end, _, h) = literal_place pos s after inside e in
      rw d
        (end_of_inside value_length_overflow value_out_of_range start (length s.raw) h ∙ ap ok end)

  pub slice-raw :
      (start : ℕ) (raw after : List ℕ)
      → drop start payload ≡ raw ++ after
      → take (start + length raw - start) (drop start payload) ≡ raw
  slice-raw start raw after e =
      let size : start + length raw - start ≡ length raw = omega arith in
      ap (λ t. take t (drop start payload)) size
      ∙ ap (take (length raw)) e
      ∙ take-append_length raw after

  huffman_flag :
      (pos : ℕ) (s : Literal) (after : List ℕ)
      → drop pos payload ≡ literal_bytes s ++ after
      → not (bit_and (get_or payload pos 0) 0x80 == 0) ≡ s.huffman
  huffman_flag pos s after e =
      let (b, t, eb, byte, lo, hi) =
        first_byte 7 (bit s.huffman) (length s.raw) (literal_prefix s.huffman) in
      let (_, at, _) = drop-cons pos payload 0 (e ∙ ap (λ u. (u ++ s.raw) ++ after) eb) in
      rw at (flag_of_byte b s.huffman byte lo hi)

  pub read_literal_value-literal_bytes :
      (pos : ℕ) (s : Literal) (after : List ℕ)
      → pos < length payload
      → drop pos payload ≡ literal_bytes s ++ after
      → read_literal_value payload pos
        ≡ and_then (literal_text s) (λ text. ok (text, pos + length (literal_bytes s)))
  unfolding read_literal_value
  read_literal_value-literal_bytes pos s after inside e =
      let (start, d, end, rest, h) = literal_place pos s after inside e in
      let within : leb (length payload) pos ≡ false = ground arith in
      rw
        (
          within,
          d,
          end_of_inside value_length_overflow value_out_of_range start (length s.raw) h,
          slice-raw start s.raw after rest,
          huffman_flag pos s after e,
          end,
        )
        refl
