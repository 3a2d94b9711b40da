-- ===== src/Huffman/Complete.antt =====
-- `decode` returns every text whose code, filled up with ones, is the buffer.
use native.Mathlib.Nat.{mod-eq_of_lt, le_refl}
use mathlib.Core.List.{append_assoc, append-nil}
use warp_socks.Prelude.{
  ℕ, zero, suc, ◌+◌, ◌-◌, ◌%◌, ◌^◌, ◌≤◌, ◌<◌, ◌≡◌, ◌↔◌, refl, sym, ap, ◌∙◌, List, [], ◌∷◌, ◌++◌,
  false, none, some, arith, length, length-append, All, ◌==◌, Option-cases, inl, inr, ne→==,
  append-cancel,
}
use warp_socks.Prelude.Exec.{ok}
use warp_socks.Prelude.Bytes.{pow-pos, low_bits, IsByte}
use warp_socks.Huffman.{match_symbol, drain, shift_in, decode_bytes, finish, decode}
use warp_socks.Huffman.Table.{table}
use warp_socks.Huffman.Steps.{drain_stop, drain_go}
use warp_socks.Huffman.BitStrings.{bits}
use warp_socks.Huffman.Match.{nth, match_symbol_exact}
use warp_socks.Huffman.Width.{match_length, IsSettled, drain-IsSettled, shift_in-lt}
use mathlib.Core.Path.{subst}
use warp_socks.Huffman.Sound.{
  decode_sound, bits_shift, code_bits, encoded, buffer_bits, ones, Heads-split, bits-ones,
  decode_lem,
}
use warp_socks.Huffman.Unique.{
  length-bits, bits-injective, Heads-of_split, code_unique, length-ones, padding_no_code,
}

-- A match on bits that continue as a padded text is the text's next symbol.
next_symbol :
    (acc nbits n len r : ℕ) (rest later : List ℕ)
    → r < 8
    → All IsByte rest
    → match_symbol acc nbits ≡ some (n, len)
    → bits nbits acc ++ later ≡ encoded rest ++ ones r
    → (others : List ℕ) × (rest ≡ n ∷ others)
      × (bits (nbits - len) (low_bits acc (nbits - len)) ++ later ≡ encoded others ++ ones r)
next_symbol acc nbits n len r [] later short bytes m e =
    let (b, l, h) = (match_symbol_exact acc nbits n len).0 m in
    absurd (
      padding_no_code n r _ b short (
        sym (append_assoc (code_bits n) _ later)
        ∙ ap (λ t. t ++ later) (sym (Heads-split n acc nbits h))
        ∙ e))
next_symbol acc nbits n len r (x ∷ others) later short (bx, bytes) m e =
    let (b, l, h) = (match_symbol_exact acc nbits n len).0 m in
    let low = bits (nbits - (nth table n).1) (low_bits acc (nbits - (nth table n).1)) in
    let both : code_bits n ++ (low ++ later) ≡ code_bits x ++ (encoded others ++ ones r) =
      sym (append_assoc (code_bits n) low later)
      ∙ ap (λ t. t ++ later) (sym (Heads-split n acc nbits h))
      ∙ e
      ∙ append_assoc (code_bits x) (encoded others) (ones r) in
    let same : n ≡ x =
      code_unique n x (low ++ later) (encoded others ++ ones r) b (omega arith) both in
    let cut =
      append-cancel (code_bits n) (code_bits x) (ap (λ t. length (code_bits t)) same) both in
    (others, ap (λ t. t ∷ others) (sym same), rw (← l) cut.1)

-- The state `s` has decoded a part of `text`; the bits that it holds and the `later` ones are the
-- code of the rest, padded by `r` ones, and hold no whole code.
pub record Follows (text later : List ℕ) (r : ℕ) (s : List ℕ × ℕ × ℕ) : Type 0 where
  pub rest : List ℕ
  pub is_text : s.0 ++ rest ≡ text
  pub rest_bytes : All IsByte rest
  pub same_bits : bits s.2 s.1 ++ later ≡ encoded rest ++ ones r
  pub no_code : match_symbol s.1 s.2 ≡ none

drain_complete :
    (fuel : ℕ) (out : List ℕ) (acc nbits r : ℕ) (rest later : List ℕ)
    → nbits ≤ fuel
    → r < 8
    → All IsByte rest
    → bits nbits acc ++ later ≡ encoded rest ++ ones r
    → (s : List ℕ × ℕ × ℕ) × (drain fuel out acc nbits ≡ ok s) × Follows (out ++ rest) later r s
drain_complete zero out acc nbits r rest later room short bytes e =
    elim (Option-cases (match_symbol acc nbits)) [
      | inl stop ↦ (
        (out, acc, nbits),
        drain_stop zero out acc nbits stop,
        record { rest = rest; is_text = refl; rest_bytes = bytes; same_bits = e; no_code = stop },
      )
      | inr ((n, len), go) ↦ absurd (omega (arith, match_length acc nbits n len go))
    ]
drain_complete (suc fuel) out acc nbits r rest later room short bytes e =
    elim (Option-cases (match_symbol acc nbits)) [
      | inl stop ↦ (
        (out, acc, nbits),
        drain_stop (suc fuel) out acc nbits stop,
        record { rest = rest; is_text = refl; rest_bytes = bytes; same_bits = e; no_code = stop },
      )
      | inr ((n, len), go) ↦
          let (others, is, tail) = next_symbol acc nbits n len r rest later short bytes go e in
          let bytes' : All IsByte (n ∷ others) = subst (All IsByte) is bytes in
          let more : (n == 256) ≡ false = ne→== n 256 (omega arith) in
          let (s, d, f) =
            drain_complete fuel (out ++ (n % 256) ∷ []) (low_bits acc (nbits - len)) (nbits - len) r
              others later (omega (arith, match_length acc nbits n len go)) short bytes'.1 tail in
          let text : (out ++ (n % 256) ∷ []) ++ others ≡ out ++ rest =
            append_assoc out ((n % 256) ∷ []) others
            ∙ ap (λ t. out ++ t ∷ others) (mod-eq_of_lt bytes'.0)
            ∙ ap (λ t. out ++ t) (sym is) in
          (
            s,
            drain_go fuel out acc nbits n len go ∙ rw more d,
            subst (λ t. Follows t later r s) text f,
          )
    ]

-- The same over a whole buffer.
decode_bytes_complete :
    (buf out : List ℕ) (acc nbits r : ℕ) (rest : List ℕ)
    → r < 8
    → All IsByte buf
    → IsSettled (out, acc, nbits)
    → All IsByte rest
    → bits nbits acc ++ buffer_bits buf ≡ encoded rest ++ ones r
    → match_symbol acc nbits ≡ none
    → (s : List ℕ × ℕ × ℕ) × (decode_bytes buf out acc nbits ≡ ok s)
      × IsSettled s
      × Follows (out ++ rest) [] r s
unfolding decode_bytes
decode_bytes_complete [] out acc nbits r rest short bb set bytes e stop = (
  (out, acc, nbits),
  refl,
  set,
  record { rest = rest; is_text = refl; rest_bytes = bytes; same_bits = e; no_code = stop },
)
decode_bytes_complete (byte ∷ buf) out acc nbits r rest short (b, bb) (small, narrow) bytes e stop =
    let (exact, fits) = shift_in-lt acc nbits byte small narrow b in
    let joined : bits (nbits + 8) (shift_in acc byte) ++ buffer_bits buf ≡ encoded rest ++ ones r =
      ap (λ t. t ++ buffer_bits buf) (bits_shift acc nbits byte small narrow b)
      ∙ append_assoc (bits nbits acc) (bits 8 byte) (buffer_bits buf)
      ∙ e in
    let (s, d, f) =
      drain_complete (nbits + 8) out (shift_in acc byte) (nbits + 8) r rest (buffer_bits buf)
        (le_refl _) short bytes joined in
    let set =
      drain-IsSettled (nbits + 8) out (shift_in acc byte) (nbits + 8) s (le_refl _) fits d in
    let (s', d', set', f') =
      decode_bytes_complete buf s.0 s.1 s.2 r f.rest short bb set f.rest_bytes f.same_bits
        f.no_code in
    (s', rw d d', set', subst (λ t. Follows t [] r s') f.is_text f')

-- where no code is left at the end of the buffer, only the padding is left
only_padding :
    (rest : List ℕ) (acc nbits r : ℕ)
    → All IsByte rest
    → bits nbits acc ++ [] ≡ encoded rest ++ ones r
    → match_symbol acc nbits ≡ none
    → (rest ≡ []) × (nbits ≡ r)
only_padding [] acc nbits r bytes e stop = (
  refl,
  omega
      (arith, ap length e, length-append (bits nbits acc) [], length-bits nbits acc, length-ones r),
)
only_padding (x ∷ rest) acc nbits r (bx, bytes) e stop =
    let split = e ∙ append_assoc (code_bits x) (encoded rest) (ones r) in
    let fits : (nth table x).1 ≤ nbits = omega (
      arith,
      ap length split,
      length-append (bits nbits acc) [],
      length-bits nbits acc,
      length-append (code_bits x) (encoded rest ++ ones r),
      length-bits (nth table x).1 (nth table x).0,
    ) in
    let heads = Heads-of_split x acc nbits [] (encoded rest ++ ones r) fits split in
    let found = (match_symbol_exact acc nbits x (nth table x).1).1 (omega arith, refl, heads) in
    cc (found, stop)

finish_complete :
    (out : List ℕ) (acc nbits : ℕ)
    → nbits < 8
    → low_bits acc nbits ≡ 2 ^ nbits - 1
    → finish out acc nbits ≡ ok out
unfolding finish
finish_complete out acc nbits short pad = ground arith

no_code_at_start : match_symbol 0 0 ≡ none
no_code_at_start = elim (Option-cases (match_symbol 0 0)) [
  | inl stop ↦ stop
  | inr ((n, len), go) ↦ absurd (omega (arith, match_length 0 0 n len go))
]

-- `decode` returns `text` exactly if the bits of the buffer are the codes of the bytes of `text`, in
-- order, and after them fewer than eight ones.
pub decode_iff :
    (buf text : List ℕ)
    → All IsByte buf
    → All IsByte text
    → (decode buf ≡ ok text) ↔ ((r : ℕ) × (r < 8) × (buffer_bits buf ≡ encoded text ++ ones r))
unfolding bits
decode_iff buf text bb bytes = (
  decode_sound buf text bb,
  λ (r, short, e).
      let (s, d, (small, _), f) =
        decode_bytes_complete buf [] 0 0 r text short bb (omega arith, omega arith) bytes e
          no_code_at_start in
      let (empty, width) = only_padding f.rest s.1 s.2 r f.rest_bytes f.same_bits f.no_code in
      let ones_left : bits s.2 s.1 ≡ bits s.2 (2 ^ s.2 - 1) =
        sym (append-nil (bits s.2 s.1))
        ∙ f.same_bits
        ∙ ap (λ t. encoded t ++ ones r) empty
        ∙ ap ones (sym width)
        ∙ sym (bits-ones s.2) in
      let full : (2 ^ s.2 - 1) % 2 ^ s.2 ≡ 2 ^ s.2 - 1 =
        mod-eq_of_lt (omega (arith, pow-pos s.2)) in
      let pad = bits-injective s.2 s.1 (2 ^ s.2 - 1) ones_left ∙ full in
      let whole : s.0 ≡ text = sym (append-nil s.0) ∙ ap (λ t. s.0 ++ t) (sym empty) ∙ f.is_text in
      decode_lem buf ∙ rw d (finish_complete s.0 s.1 s.2 (omega arith) pad) ∙ ap ok whole,
)
