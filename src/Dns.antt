-- ===== src/Dns.antt =====
-- dns.rs: the query that is sent through the tunnel, the reading of its response, and `resolve_inner`
-- over the events of its socket. A name is the list of its bytes.
pub mod Cache
pub mod Resolve
pub mod Sections
pub mod Names
pub mod Response
pub mod Total
pub mod Query
pub mod Wire
mod Runs
use warp_socks.Prelude.{
  ℕ, zero, suc, ◌+◌, ◌-◌, ◌^◌, List, [], ◌∷◌, ◌++◌, Option, none, some, Bool, true, false, not,
  ◌||◌, length, get_or, take, drop, ltb, leb, ◌==◌, if◌then◌else◌, bit_and, min,
}
use warp_socks.Prelude.Exec.{Result, ok, err, and_then}
use warp_socks.Prelude.Bytes.{to_be16, from_be16, from_be32}
use warp_socks.Net.{IpAddr, v4, v6}

pub data RecordType : Type 0 where
  a aaaa : RecordType

pub qtype : RecordType → ℕ
qtype a = 1
qtype aaaa = 28

-- the texts of the source's errors; `stuck` is none of them: a loop of the model ran out of fuel
pub data Error : Type 0 where
  bad_name_length bad_label_length name_past_end pointer_past_end too_short wrong_id
        not_a_response :
      Error
  truncated no_such_name question_incomplete answer_incomplete rdata_incomplete : Error
  server_error : ℕ → Error
  stuck : Error

-- `trim_end_matches('.')`
pub trim_end_dots : List ℕ → List ℕ
trim_end_dots [] = []
trim_end_dots (c ∷ cs) =
    let rest = trim_end_dots cs in
    elim rest [ [] ↦ if c == b'.' then [] else c ∷ [] | r ∷ rs ↦ c ∷ r ∷ rs ]

-- `split('.')`, with the characters of the piece that is being read
pub split_dots : List ℕ → List ℕ → List (List ℕ)
split_dots piece [] = piece ∷ []
split_dots piece (c ∷ cs) =
    if c == b'.' then piece ∷ split_dots [] cs else split_dots (piece ++ (c ∷ [])) cs

pub encode_labels : List (List ℕ) → Result Error (List ℕ)
encode_labels [] = ok []
encode_labels (label ∷ labels) =
    if length label == 0 || ltb 63 (length label)
    then err bad_label_length
    else and_then (encode_labels labels) (λ rest. ok (length label ∷ (label ++ rest)))

pub encode_dns_query : ℕ → List ℕ → RecordType → Result Error (List ℕ)
unfolding encode_labels split_dots trim_end_dots qtype
encode_dns_query id name record_type =
    let trimmed = trim_end_dots name in
    if length trimmed == 0 || ltb 253 (length trimmed)
    then err bad_name_length
    else and_then (encode_labels (split_dots [] trimmed)) (λ labels. ok (
        to_be16 id
        ++ (to_be16 0x0100
            ++ (to_be16 1
                ++ ((0 ∷ 0 ∷ 0 ∷ 0 ∷ 0 ∷ 0 ∷ [])
                    ++ (labels ++ (0 ∷ (to_be16 (qtype record_type) ++ to_be16 1))))))))

abbrev pub byte_at : List ℕ → ℕ → ℕ
byte_at buf i = get_or buf i 0

abbrev pub u16_at : List ℕ → ℕ → ℕ
u16_at buf i = from_be16 (byte_at buf i) (byte_at buf (i + 1))

-- the loop of `skip_name`
pub skip_labels : ℕ → List ℕ → ℕ → Result Error ℕ
skip_labels zero buf pos = err stuck
skip_labels (suc fuel) buf pos =
    let len = byte_at buf pos in
    let rest = skip_labels fuel buf (pos + (1 + len)) in
    if leb (length buf) pos
    then err name_past_end
    else if len == 0
    then ok (pos + 1)
    else if bit_and len 0xc0 == 0xc0
    then (if leb (length buf) (pos + 1) then err pointer_past_end else ok (pos + 2))
    else rest

-- every label is at least one byte of the message
pub skip_name : List ℕ → ℕ → Result Error ℕ
skip_name buf pos = skip_labels (suc (length buf)) buf pos

pub skip_questions : ℕ → List ℕ → ℕ → Result Error ℕ
skip_questions zero buf pos = ok pos
skip_questions (suc qdcount) buf pos = and_then (skip_name buf pos) (λ p.
    if ltb (length buf) (p + 4)
    then err question_incomplete
    else skip_questions qdcount buf (p + 4))

pub record Found : Type 0 where
  pub addrs : List IpAddr
  pub min_ttl : ℕ

-- the `match` on what a record is: its address is kept when it is of the type that was asked for
pub add_record : RecordType → ℕ → List ℕ → ℕ → Found → Found
add_record a rtype rdata ttl f =
    if rtype == 1
    then (if length rdata == 4
        then record { addrs = f.addrs ++ (v4 rdata ∷ []); min_ttl = min f.min_ttl ttl }
        else f)
    else f
add_record aaaa rtype rdata ttl f =
    if rtype == 28
    then (if length rdata == 16
        then record { addrs = f.addrs ++ (v6 rdata ∷ []); min_ttl = min f.min_ttl ttl }
        else f)
    else f

pub answers : ℕ → RecordType → List ℕ → ℕ → Found → Result Error Found
answers zero record_type buf pos f = ok f
answers (suc ancount) record_type buf pos f = and_then (skip_name buf pos) (λ p.
    let rdlength = u16_at buf (p + 8) in
    let ttl =
      from_be32 (byte_at buf (p + 4)) (byte_at buf (p + 5)) (byte_at buf (p + 6))
        (byte_at buf (p + 7)) in
    let rdata = take rdlength (drop (p + 10) buf) in
    if ltb (length buf) (p + 10)
    then err answer_incomplete
    else if ltb (length buf) (p + 10 + rdlength)
    then err rdata_incomplete
    else answers ancount record_type buf (p + 10 + rdlength)
        (add_record record_type (u16_at buf p) rdata ttl f))

-- the header's fields
pub check_flags : ℕ → Result Error (Unit {0})
check_flags flags =
    if bit_and flags 0x8000 == 0
    then err not_a_response
    else if not (bit_and flags 0x0200 == 0)
    then err truncated
    else if bit_and flags 0x000f == 0
    then ok tt
    else if bit_and flags 0x000f == 3
    then err no_such_name
    else err (server_error (bit_and flags 0x000f))

pub parse_dns_response : List ℕ → ℕ → RecordType → Result Error Found
unfolding check_flags skip_questions answers add_record skip_name skip_labels
parse_dns_response buf expected_id record_type =
    if ltb (length buf) 12
    then err too_short
    else if not (u16_at buf 0 == expected_id)
    then err wrong_id
    else and_then (check_flags (u16_at buf 2)) (λ _.
      and_then (skip_questions (u16_at buf 4) buf 12) (λ pos.
        answers (u16_at buf 6) record_type buf pos (record { addrs = []; min_ttl = 2 ^ 32 - 1 })))
