-- ===== src/Qpack/Progress.antt =====
-- Every round of the decoder's loop takes a byte, so the loop ends on every input.
use warp_socks.Prelude.{
  ℕ, zero, suc, ◌+◌, ◌-◌, ◌^◌, ◌≤◌, ◌<◌, ◌≢◌, ap, List, arith, length, get_or, ltb, leb, ◌==◌,
  bit_and, Bool-cases, inl, inr, ltb→ge, ltb→lt,
}
use warp_socks.Prelude.Exec.{Result, ok, err, and_then, Result-cases, err-injective}
use warp_socks.Qpack.{
  Error, stuck, decode_integer, end_of, read_literal_value, skip_literal_value, Fields,
  literal_line, field_line, field_lines, response, decode_headers, skip_integer,
  value_length_overflow, value_out_of_range, name_length_overflow, name_out_of_range,
}
use warp_socks.Qpack.Response.{decode_headers_lem, no_fields}
use warp_socks.Qpack.Total.{
  Advances, decode_integer-Advances, decode_string-ne-stuck, decode_integer-ne-stuck,
}

-- an end that a step computes from a place: not before it, and inside the buffer
abbrev Ends : ℕ → ℕ → Result Error ℕ → Type 0
Ends start size (ok n) = (start ≤ n) × (n ≤ size)
Ends start size (err e) = e ≢ stuck

module _ {ℓ} (pos size : ℕ) {B : Type ℓ} where
  bind-Advances {κ} :
      {A : Type κ} (r : Result Error (A × ℕ)) (g : A × ℕ → Result Error (B × ℕ))
      → Advances pos size r
      → ((a : A) (n : ℕ) → pos < n → n ≤ size → Advances pos size (g (a, n)))
      → Advances pos size (and_then r g)
  bind-Advances (ok (a, n)) g (lt, le) h = h a n lt le
  bind-Advances (err e) g ne h = ne

  bind-Ends :
      (start : ℕ) (r : Result Error ℕ) (g : ℕ → Result Error (B × ℕ))
      → Ends start size r
      → ((n : ℕ) → start ≤ n → n ≤ size → Advances pos size (g n))
      → Advances pos size (and_then r g)
  bind-Ends start (ok n) g (lt, le) h = h n lt le
  bind-Ends start (err e) g ne h = ne

  bind-ne-stuck {κ} :
      {A : Type κ} (r : Result Error A) (g : A → Result Error (B × ℕ))
      → r ≢ err stuck
      → ((a : A) → Advances pos size (g a))
      → Advances pos size (and_then r g)
  bind-ne-stuck (ok a) g ne h = h a
  bind-ne-stuck (err e) g ne h = λ s. ne (ap err s)

end_of-Ends :
    (overflow outside : Error) (payload : List ℕ) (start len : ℕ)
    → overflow ≢ stuck
    → outside ≢ stuck
    → Ends start (length payload) (end_of overflow outside payload start len)
unfolding end_of
end_of-Ends overflow outside payload start len ho hi =
    elim (Bool-cases (leb (2 ^ 64) (start + len))) [
      | inl big ↦ rw big ho
      | inr fits ↦ elim (Bool-cases (ltb (length payload) (start + len))) [
        | inl out ↦ rw (fits, out) hi
        | inr within ↦ rw (fits, within) (omega arith, ltb→ge _ _ within)
      ]
    ]

Ends-weaken : (size a b : ℕ) (r : Result Error ℕ) → a ≤ b → Ends b size r → Ends a size r
Ends-weaken size a b (ok n) h (lo, hi) = (omega arith, hi)
Ends-weaken size a b (err e) h ne = ne

module _ (payload : List ℕ) (pos : ℕ) where
  skip_literal_value-Ends : Ends (suc pos) (length payload) (skip_literal_value payload pos)
  unfolding skip_literal_value
  skip_literal_value-Ends = elim (Result-cases (decode_integer payload pos 7)) [
    | inl ((len, start), d) ↦
        let (lt, le) = rw d at (decode_integer-Advances payload pos 7 (omega arith)) in
        rw d (
          Ends-weaken (length payload) (suc pos) start _ lt (
            end_of-Ends value_length_overflow value_out_of_range payload start len (λ e. cc)
              (λ e. cc)))
    | inr (x, d) ↦ rw d (rw d at (decode_integer-Advances payload pos 7 (omega arith)))
  ]

  read_literal_value-Advances : Advances pos (length payload) (read_literal_value payload pos)
  unfolding read_literal_value
  read_literal_value-Advances = elim (Bool-cases (leb (length payload) pos)) [
    | inl out ↦ rw out (λ e. cc)
    | inr within ↦ rw within (
        bind-Advances pos (length payload) _ _ (decode_integer-Advances payload pos 7 (omega arith))
          λ len start lt le.
            bind-Ends pos (length payload) start _ _
              (end_of-Ends value_length_overflow value_out_of_range payload start len (λ e. cc)
                (λ e. cc))
              λ end lo hi.
                bind-ne-stuck pos (length payload) _ _ (decode_string-ne-stuck _ _)
                  λ text. (omega arith, hi))
  ]

Advances-weaken {ℓ} :
    {A : Type ℓ} (size a b : ℕ) (r : Result Error (A × ℕ))
    → a ≤ b
    → Advances b size r
    → Advances a size r
Advances-weaken size a b (ok (x, n)) h (lo, hi) = (omega arith, hi)
Advances-weaken size a b (err e) h ne = ne

module _ (payload : List ℕ) (pos : ℕ) (f : Fields) where
  literal_line-Advances : Advances pos (length payload) (literal_line payload pos f)
  unfolding literal_line
  literal_line-Advances =
      bind-Advances pos (length payload) _ _ (decode_integer-Advances payload pos 3 (omega arith))
        λ name_len n lt le.
          bind-Ends pos (length payload) n _ _
            (end_of-Ends name_length_overflow name_out_of_range payload n name_len (λ e. cc)
              (λ e. cc))
            λ name_end lo hi.
              bind-ne-stuck pos (length payload) _ _ (decode_string-ne-stuck _ _) λ name.
                Advances-weaken (length payload) pos name_end _ (omega arith) (
                  bind-Advances name_end (length payload) _ _
                    (read_literal_value-Advances payload name_end)
                    λ value new_pos lt' le'. (lt', le'))

  field_line-Advances : Advances pos (length payload) (field_line payload pos f)
  unfolding field_line
  field_line-Advances =
      let b = get_or payload pos 0 in
      elim (Bool-cases (bit_and b 0x80 == 0)) [
        | inr one ↦ rw one (
            bind-Advances pos (length payload) _ _
              (decode_integer-Advances payload pos 6 (omega arith)) λ idx n lt le. (lt, le))
        | inl zero_bit ↦ elim (Bool-cases (bit_and b 0xc0 == 0x40)) [
          | inl reference ↦
              rw (zero_bit, reference)
                (bind-Advances pos (length payload) _ _
                  (decode_integer-Advances payload pos 4 (omega arith))
                  λ idx n lt le.
                    bind-Ends pos (length payload) (suc n) _ _ (skip_literal_value-Ends payload n)
                      λ end lo hi. (omega arith, hi))
          | inr other ↦ elim (Bool-cases (bit_and b 0xe0 == 0x20)) [
            | inl named ↦ rw (zero_bit, other, named) literal_line-Advances
            | inr post_base ↦ rw (zero_bit, other, post_base) (λ e. cc)
          ]
        ]
      ]

field_lines-ne-stuck :
    (fuel : ℕ) (payload : List ℕ) (pos : ℕ) (f : Fields)
    → length payload - pos ≤ fuel
    → field_lines fuel payload pos f ≢ err stuck
unfolding field_lines
field_lines-ne-stuck zero payload pos f room = ground arith
field_lines-ne-stuck (suc fuel) payload pos f room = elim (Bool-cases (ltb pos (length payload))) [
  | inr done ↦ rw done (λ e. cc)
  | inl more ↦ rw more (
      after_line (field_line payload pos f) (field_line-Advances payload pos f)
        λ f' n lt. field_lines-ne-stuck fuel payload n f' (omega (arith, ltb→lt _ _ more)))
]
  where
    after_line :
        (r : Result Error (Fields × ℕ))
        → Advances pos (length payload) r
        → ((f' : Fields) (n : ℕ) → pos < n → field_lines fuel payload n f' ≢ err stuck)
        → and_then r (λ (f', n). field_lines fuel payload n f') ≢ err stuck
    after_line (ok (f', n)) (lt, le) h = h f' n lt
    after_line (err e) ne h = λ s. ne (err-injective s)

and_then-ne-stuck {ℓ κ} :
    {A : Type ℓ} {B : Type κ} (r : Result Error A) (g : A → Result Error B)
    → r ≢ err stuck
    → ((a : A) → g a ≢ err stuck)
    → and_then r g ≢ err stuck
and_then-ne-stuck (ok a) g hr hg = hg a
and_then-ne-stuck (err e) g hr hg = λ s. hr (ap err (err-injective s))

skip_integer-ne-stuck : (buf : List ℕ) (pos k : ℕ) → skip_integer buf pos k ≢ err stuck
unfolding skip_integer
skip_integer-ne-stuck buf pos k =
    and_then-ne-stuck (decode_integer buf pos k) _ (decode_integer-ne-stuck buf pos k) (λ r e. cc)

response-ne-stuck : (f : Fields) → response f ≢ err stuck
unfolding response
response-ne-stuck f = ground arith

-- `decode_headers` ends on every input: its loops never run out of fuel.
pub decode_headers-ne-stuck : (payload : List ℕ) → decode_headers payload ≢ err stuck
decode_headers-ne-stuck payload = rw decode_headers_lem (
    and_then-ne-stuck _ _ (skip_integer-ne-stuck payload 0 8) λ p.
      and_then-ne-stuck _ _ (skip_integer-ne-stuck payload p 7) λ pos.
        and_then-ne-stuck _ _
          (field_lines-ne-stuck (length payload) payload pos no_fields (omega arith))
          response-ne-stuck)
