-- ===== src/Dns/Query.antt =====
-- The query that dns.rs sends: the name is on the wire as labels, and `skip_name` passes over it.
use mathlib.Core.Path.{subst}
use mathlib.Core.List.{append_assoc}
use warp_socks.Prelude.{
  ℕ, ◌+◌, ◌-◌, ◌≡◌, sym, ap, ◌∙◌, List, [], ◌∷◌, ◌++◌, ◌||◌, length, drop, ltb, ◌==◌, Bool-cases,
  inl, inr, arith, drop-append,
}
use warp_socks.Prelude.Exec.{Result, ok, ok-injective, Result-cases}
use warp_socks.Prelude.Bytes.{to_be16}
use warp_socks.Dns.{
  RecordType, Error, trim_end_dots, split_dots, encode_labels, encode_dns_query, qtype, skip_name,
}
use warp_socks.Dns.Names.{IsName, root, label, skip_name-IsName}

-- the labels that are written are a name, closed by the root
abbrev Named : Result Error (List ℕ) → Type 0
Named r = (bytes : List ℕ) → r ≡ ok bytes → IsName (bytes ++ (0 ∷ []))

encode_labels-Named : (labels : List (List ℕ)) → Named (encode_labels labels)
unfolding encode_labels
encode_labels-Named [] = λ bytes h. subst (λ b. IsName (b ++ (0 ∷ []))) (ok-injective h) root
encode_labels-Named (l ∷ labels) = elim (Bool-cases (length l == 0 || ltb 63 (length l))) [
  | inl bad ↦ rw bad (λ bytes h. cc)
  | inr good ↦ elim (Result-cases (encode_labels labels)) [
    | inr (e, failed) ↦ rw (good, failed) (λ bytes h. cc)
    | inl (rest, encoded) ↦
        rw (good, encoded)
          (λ bytes h.
            subst (λ b. IsName (b ++ (0 ∷ []))) (ok-injective h)
              (rw (append_assoc l rest (0 ∷ [])) (
                label l (rest ++ (0 ∷ [])) (ground arith) (ground arith)
                  (encode_labels-Named labels rest encoded))))
  ]
]

abbrev tail_bytes : RecordType → List ℕ
tail_bytes t = to_be16 (qtype t) ++ to_be16 1

abbrev query_bytes : ℕ → List ℕ → RecordType → List ℕ
query_bytes id labels t =
    to_be16 id
    ++ (to_be16 0x0100
        ++ (to_be16 1 ++ ((0 ∷ 0 ∷ 0 ∷ 0 ∷ 0 ∷ 0 ∷ []) ++ (labels ++ (0 ∷ tail_bytes t)))))

skip_name-query_bytes :
    (id : ℕ) (labels : List ℕ) (t : RecordType)
    → IsName (labels ++ (0 ∷ []))
    → (skip_name (query_bytes id labels t) 12 ≡ ok (length (query_bytes id labels t) - 4))
      × (drop (length (query_bytes id labels t) - 4) (query_bytes id labels t) ≡ tail_bytes t)
skip_name-query_bytes id labels t is_name =
    let (after, size) =
      drop-append 12 (query_bytes id labels t) (labels ++ (0 ∷ [])) (tail_bytes t) split
        (omega arith) in
    let here : 12 + length (labels ++ (0 ∷ [])) ≡ length (query_bytes id labels t) - 4 =
      omega (arith, size) in
    (
      skip_name-IsName (labels ++ (0 ∷ [])) is_name (query_bytes id labels t) (tail_bytes t) 12
            split (omega arith)
          ∙ ap ok here,
      ap (λ n. drop n (query_bytes id labels t)) (sym here) ∙ after,
    )
  where
    split : labels ++ (0 ∷ tail_bytes t) ≡ (labels ++ (0 ∷ [])) ++ tail_bytes t
    split = sym (append_assoc labels (0 ∷ []) (tail_bytes t))

-- In a query that is built, skip_name passes from the twelfth byte to the last four, which are the type
-- and class.
pub skip_name-encode_dns_query :
    (id : ℕ) (name : List ℕ) (t : RecordType) (query : List ℕ)
    → encode_dns_query id name t ≡ ok query
    → (skip_name query 12 ≡ ok (length query - 4))
      × (drop (length query - 4) query ≡ to_be16 (qtype t) ++ to_be16 1)
unfolding encode_dns_query
skip_name-encode_dns_query id name t =
    elim (Bool-cases (length (trim_end_dots name) == 0 || ltb 253 (length (trim_end_dots name)))) [
      | inl bad ↦ rw bad (λ query h. cc)
      | inr good ↦ elim (Result-cases (encode_labels (split_dots [] (trim_end_dots name)))) [
        | inr (e, failed) ↦ rw (good, failed) (λ query h. cc)
        | inl (labels, encoded) ↦
            rw (good, encoded)
              (λ query h.
                subst
                  (λ q.
                    (skip_name q 12 ≡ ok (length q - 4)) × (drop (length q - 4) q ≡ tail_bytes t))
                  (ok-injective h)
                  (skip_name-query_bytes id labels t
                    (encode_labels-Named (split_dots [] (trim_end_dots name)) labels encoded)))
      ]
    ]
