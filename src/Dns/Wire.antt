-- ===== src/Dns/Wire.antt =====
-- The bytes of the query that dns.rs sends, for any name.
use mathlib.Core.List.{append_assoc, append-nil}
use warp_socks.Prelude.{
  ℕ, ◌≡◌, ◌≢◌, refl, sym, ap, ◌∙◌, List, [], ◌∷◌, ◌++◌, Bool, true, false, ◌&&◌, ◌||◌, length, ltb,
  leb, ◌==◌, if◌then◌else◌, Bool-cases, inl, inr, arith, All, All-append, ==→eq, ==→ne,
}
use warp_socks.Prelude.Exec.{ok, err}
use warp_socks.Prelude.Bytes.{to_be16}
use warp_socks.Dns.{
  RecordType, bad_name_length, bad_label_length, trim_end_dots, split_dots, encode_labels,
  encode_dns_query, qtype,
}
use warp_socks.Dns.Sections.{concat_map}
use warp_socks.Dns.Response.{message_bytes}

-- the labels of a name, each with a dot in front of it
pub dots : List (List ℕ) → List ℕ
dots [] = []
dots (label ∷ labels) = b'.' ∷ (label ++ dots labels)

abbrev pub HasNoDot : List ℕ → Type 0
HasNoDot label = All (λ c. c ≢ b'.') label

-- labels of 1 to 63 bytes
pub all_short : List (List ℕ) → Bool
all_short [] = true
all_short (label ∷ labels) = leb 1 (length label) && leb (length label) 63 && all_short labels

-- A label on the wire is behind its length.
abbrev pub wire : List (List ℕ) → List ℕ
wire labels = concat_map (λ label. length label ∷ label) labels

-- A message that asks for recursion, with one question and no record: the name, closed by the root, its
-- type, and class IN.
abbrev pub query_bytes : ℕ → List (List ℕ) → RecordType → List ℕ
query_bytes id labels t =
    message_bytes id 0x0100 0 0
      (record { name = wire labels ++ (0 ∷ []); fields = to_be16 (qtype t) ++ to_be16 1 } ∷ []) []
      []

dots-split_dots : (piece cs : List ℕ) → dots (split_dots piece cs) ≡ b'.' ∷ (piece ++ cs)
unfolding dots split_dots
dots-split_dots piece [] = refl
dots-split_dots piece (c ∷ cs) = elim (Bool-cases (c == b'.')) [
  | inl dot ↦ rw dot (
      ap (λ l. b'.' ∷ (piece ++ l))
        (dots-split_dots [] cs ∙ ap (λ d. d ∷ cs) (sym (==→eq c b'.' dot))))
  | inr other ↦
      rw other (
        dots-split_dots (piece ++ (c ∷ [])) cs
        ∙ ap (λ l. b'.' ∷ l) (append_assoc piece (c ∷ []) cs))
]

split_dots-HasNoDot : (piece cs : List ℕ) → HasNoDot piece → All HasNoDot (split_dots piece cs)
unfolding split_dots
split_dots-HasNoDot piece [] clean = (clean, tt)
split_dots-HasNoDot piece (c ∷ cs) clean = elim (Bool-cases (c == b'.')) [
  | inl dot ↦ rw dot (clean, split_dots-HasNoDot [] cs tt)
  | inr other ↦ rw other (
      split_dots-HasNoDot (piece ++ (c ∷ [])) cs
        (All-append (λ d. d ≢ b'.') piece (c ∷ []) clean (==→ne c b'.' other, tt)))
]

encode_labels-wire :
    (labels : List (List ℕ))
    → encode_labels labels ≡ (if all_short labels then ok (wire labels) else err bad_label_length)
unfolding encode_labels all_short
encode_labels-wire [] = refl
encode_labels-wire (label ∷ labels) =
    elim (Bool-cases (length label == 0 || ltb 63 (length label))) [
      | inl bad ↦
          let outside : (leb 1 (length label) && leb (length label) 63) ≡ false = ground arith in
          rw (bad, outside) refl
      | inr good ↦
          let within : (leb 1 (length label) && leb (length label) 63) ≡ true = ground arith in
          rw (good, within, encode_labels-wire labels)
            (elim (Bool-cases (all_short labels)) [
              | inl short ↦ rw short refl
              | inr long ↦ rw long refl
            ])
    ]

question_last :
    (labels : List ℕ) (t : RecordType)
    → labels ++ (0 ∷ (to_be16 (qtype t) ++ to_be16 1))
      ≡ (((labels ++ (0 ∷ [])) ++ (to_be16 (qtype t) ++ to_be16 1)) ++ []) ++ []
question_last labels t =
    sym (append_assoc labels (0 ∷ []) (to_be16 (qtype t) ++ to_be16 1))
    ∙ sym (append-nil ((labels ++ (0 ∷ [])) ++ (to_be16 (qtype t) ++ to_be16 1)))
    ∙ sym (append-nil (((labels ++ (0 ∷ [])) ++ (to_be16 (qtype t) ++ to_be16 1)) ++ []))

encode_dns_query-sizes :
    (id : ℕ) (name : List ℕ) (t : RecordType)
    → encode_dns_query id name t ≡ (
        if leb 1 (length (trim_end_dots name)) && leb (length (trim_end_dots name)) 253
        then (if all_short (split_dots [] (trim_end_dots name))
            then ok (query_bytes id (split_dots [] (trim_end_dots name)) t)
            else err bad_label_length)
        else err bad_name_length)
unfolding encode_dns_query
encode_dns_query-sizes id name t =
    let size = length (trim_end_dots name) in
    let labels = split_dots [] (trim_end_dots name) in
    elim (Bool-cases (size == 0 || ltb 253 size)) [
      | inl bad ↦
          let outside : (leb 1 size && leb size 253) ≡ false = ground arith in
          rw (bad, outside) refl
      | inr good ↦
          let within : (leb 1 size && leb size 253) ≡ true = ground arith in
          rw (good, within, encode_labels-wire labels)
            (elim (Bool-cases (all_short labels)) [
              | inl short ↦ rw short (
                  ap
                    (λ l. ok (
                      to_be16 id
                      ++ (to_be16 0x0100 ++ (to_be16 1 ++ ((0 ∷ 0 ∷ 0 ∷ 0 ∷ 0 ∷ 0 ∷ []) ++ l)))))
                    (question_last (wire labels) t))
              | inr long ↦ rw long refl
            ])
    ]

-- The name, without the dots at its end, is parted at its dots into labels that have none. The query is
-- the message that asks the one question for these labels when the name has 1 to 253 bytes and each
-- label 1 to 63. Else there is no query: the error is the one about the name if its length is wrong,
-- and the one about a label otherwise.
pub encode_dns_query-query_bytes :
    (id : ℕ) (name : List ℕ) (t : RecordType)
    → (labels : List (List ℕ)) × (dots labels ≡ b'.' ∷ trim_end_dots name)
      × All HasNoDot labels
      × (encode_dns_query id name t ≡ (
          if leb 1 (length (trim_end_dots name)) && leb (length (trim_end_dots name)) 253
          then (if all_short labels then ok (query_bytes id labels t) else err bad_label_length)
          else err bad_name_length))
encode_dns_query-query_bytes id name t = (
  split_dots [] (trim_end_dots name),
  dots-split_dots [] (trim_end_dots name),
  split_dots-HasNoDot [] (trim_end_dots name) tt,
  encode_dns_query-sizes id name t,
)
