-- ===== src/Dns/Sections.antt =====
-- The sections of a DNS message, and what dns.rs reads of them: questions are passed over, and the
-- addresses of the asked type are found.
use mathlib.Core.List.{append_assoc, append-nil}
use warp_socks.Prelude.{
  ℕ, ◌+◌, ◌/◌, ◌%◌, ◌^◌, ◌<◌, ◌≤◌, ◌≡◌, refl, sym, ap, ◌∙◌, List, [], ◌∷◌, ◌++◌, Bool, false, ◌&&◌,
  length, get_or, take, drop, ltb, ◌==◌, if◌then◌else◌, min, Bool-cases, inl, inr, arith,
  drop-append, length-append, take-append_length, All,
}
use warp_socks.Prelude.Exec.{Result, ok}
use warp_socks.Prelude.Bytes.{to_be16, from_be32, from_be16-to_be16}
use warp_socks.Net.{IpAddr, v4, v6}
use warp_socks.Dns.{
  RecordType, a, aaaa, Error, byte_at, u16_at, skip_questions, Found, add_record, answers,
}
use warp_socks.Dns.Names.{IsName, byte, skip_name-IsName}

-- a question of the message: its name, type and class
pub record Question : Type 0 where
  pub name : List ℕ
  pub fields : List ℕ

abbrev pub IsQuestion : Question → Type 0
IsQuestion q = IsName q.name × (length q.fields ≡ 4)

-- a record of the answer section
pub record Answer : Type 0 where
  pub name : List ℕ
  pub rtype : ℕ
  pub class : ℕ
  pub ttl : ℕ
  pub rdata : List ℕ

abbrev pub IsAnswer : Answer → Type 0
IsAnswer x =
    IsName x.name
    × (x.rtype < 2 ^ 16)
    × (x.class < 2 ^ 16)
    × (x.ttl < 2 ^ 32)
    × (length x.rdata < 2 ^ 16)

abbrev pub to_be32 : ℕ → List ℕ
to_be32 n = n / 2 ^ 24 % 256 ∷ n / 2 ^ 16 % 256 ∷ n / 256 % 256 ∷ n % 256 ∷ []

from_be32-to_be32 :
    (n : ℕ)
    → n < 2 ^ 32
    → from_be32 (n / 2 ^ 24 % 256) (n / 2 ^ 16 % 256) (n / 256 % 256) (n % 256) ≡ n
from_be32-to_be32 n h = omega arith

abbrev pub question_bytes : Question → List ℕ
question_bytes q = q.name ++ q.fields

abbrev pub fixed_bytes : Answer → List ℕ
fixed_bytes x = to_be16 x.rtype ++ (to_be16 x.class ++ (to_be32 x.ttl ++ to_be16 (length x.rdata)))

abbrev pub answer_bytes : Answer → List ℕ
answer_bytes x = x.name ++ (fixed_bytes x ++ x.rdata)

abbrev pub concat_map {ℓ} : {A : Type ℓ} → (A → List ℕ) → List A → List ℕ
concat_map f [] = []
concat_map f (x ∷ xs) = f x ++ concat_map f xs

-- the records of the asked type, with the length of an address of it
abbrev pub answers_type : RecordType → Answer → Bool
answers_type a x = x.rtype == 1 && length x.rdata == 4
answers_type aaaa x = x.rtype == 28 && length x.rdata == 16

abbrev pub address : RecordType → List ℕ → IpAddr
address a octets = v4 octets
address aaaa octets = v6 octets

abbrev pub addresses : RecordType → List Answer → List IpAddr
addresses t [] = []
addresses t (x ∷ xs) =
    if answers_type t x then address t x.rdata ∷ addresses t xs else addresses t xs

-- the least time to live of these records, and of `least`
abbrev pub least_ttl : RecordType → ℕ → List Answer → ℕ
least_ttl t least [] = least
least_ttl t least (x ∷ xs) = least_ttl t (if answers_type t x then min least x.ttl else least) xs

pub skip_questions-bytes :
    (qs : List Question)
    → All IsQuestion qs
    → (buf rest : List ℕ) (pos : ℕ) → drop pos buf ≡ concat_map question_bytes qs ++ rest
    → pos ≤ length buf
    → skip_questions (length qs) buf pos ≡ ok (pos + length (concat_map question_bytes qs))
unfolding skip_questions
skip_questions-bytes [] good buf rest pos e h = ap ok (omega arith)
skip_questions-bytes (q ∷ qs) ((is_name, four), good) buf rest pos e h =
    let (after_name, size) = drop-append pos buf q.name (q.fields ++ more) split h in
    let (after, size') =
      drop-append (pos + length q.name) buf q.fields more after_name (omega (arith, size)) in
    let after4 : drop (pos + length q.name + 4) buf ≡ more =
      ap (λ n. drop (pos + length q.name + n) buf) (sym four) ∙ after in
    let whole : ltb (length buf) (pos + length q.name + 4) ≡ false = ground arith in
    let fits : pos + length q.name + 4 ≤ length buf = omega arith in
    rw (skip_name-IsName q.name is_name buf (q.fields ++ more) pos split h, whole)
      (skip_questions-bytes qs good buf rest (pos + length q.name + 4) after4 fits
        ∙ ap ok (
            omega (
              arith,
              four,
              length-append q.name q.fields,
              length-append (question_bytes q) (concat_map question_bytes qs),
            )))
  where
    more : List ℕ
    more = concat_map question_bytes qs ++ rest

    split : drop pos buf ≡ q.name ++ (q.fields ++ more)
    split =
        e
        ∙ append_assoc (question_bytes q) (concat_map question_bytes qs) rest
        ∙ append_assoc q.name q.fields more

-- the fields of a record, at the position after its name
record_fields :
    (x : Answer)
    → IsAnswer x
    → (buf more : List ℕ) (p : ℕ) → drop p buf ≡ fixed_bytes x ++ (x.rdata ++ more)
    → (u16_at buf p ≡ x.rtype)
      × (from_be32
            (byte_at buf (p + 4))
            (byte_at buf (p + 5))
            (byte_at buf (p + 6))
            (byte_at buf (p + 7))
          ≡ x.ttl)
      × (u16_at buf (p + 8) ≡ length x.rdata)
record_fields x (is_name, type16, class16, ttl32, rdata16) buf more p e = (
  rw (at 0 p (omega arith), at 1 (p + 1) refl) (from_be16-to_be16 x.rtype type16),
  rw (at 4 (p + 4) refl, at 5 (p + 5) refl, at 6 (p + 6) refl, at 7 (p + 7) refl)
      (from_be32-to_be32 x.ttl ttl32),
  rw (at 8 (p + 8) refl, at 9 (p + 8 + 1) (omega arith))
      (from_be16-to_be16 (length x.rdata) rdata16),
)
  where
    at : (i j : ℕ) → j ≡ p + i → get_or buf j 0 ≡ get_or (fixed_bytes x ++ (x.rdata ++ more)) i 0
    at i j h = byte buf p i j h ∙ ap (λ l. get_or l i 0) e

abbrev keep : RecordType → Answer → Found → Found
keep t x f =
    if answers_type t x
    then record { addrs = f.addrs ++ (address t x.rdata ∷ []); min_ttl = min f.min_ttl x.ttl }
    else f

add_record_cases :
    (t : RecordType) (x : Answer) (f : Found) → add_record t x.rtype x.rdata x.ttl f ≡ (keep t x f)
unfolding add_record
add_record_cases a x f = elim (Bool-cases (x.rtype == 1)) [
  | inr other ↦ rw other refl
  | inl asked ↦ rw asked refl
]
add_record_cases aaaa x f = elim (Bool-cases (x.rtype == 28)) [
  | inr other ↦ rw other refl
  | inl asked ↦ rw asked refl
]

pub answers-bytes :
    (t : RecordType) (xs : List Answer)
    → All IsAnswer xs
    → (buf rest : List ℕ) (pos : ℕ) (f : Found) → drop pos buf ≡ concat_map answer_bytes xs ++ rest
    → pos ≤ length buf
    → answers (length xs) t buf pos f
      ≡ ok (record { addrs = f.addrs ++ addresses t xs; min_ttl = least_ttl t f.min_ttl xs })
unfolding answers
answers-bytes t [] good buf rest pos f e h = rw (append-nil f.addrs) refl
answers-bytes t (x ∷ xs) (is_answer, good) buf rest pos f e h =
    let is_name : IsName x.name = is_answer.0 in
    let (after_name, size) =
      drop-append pos buf x.name (fixed_bytes x ++ (x.rdata ++ more)) split h in
    let p = pos + length x.name in
    let (type_at, ttl_at, length_at) = record_fields x is_answer buf more p after_name in
    let (after_fixed, size') =
      drop-append p buf (fixed_bytes x) (x.rdata ++ more) after_name (omega (arith, size)) in
    let (after, size'') =
      drop-append (p + 10) buf x.rdata more after_fixed (omega (arith, size')) in
    let whole : ltb (length buf) (p + 10) ≡ false = ground arith in
    let whole' : ltb (length buf) (p + 10 + length x.rdata) ≡ false = ground arith in
    let taken : take (length x.rdata) (drop (p + 10) buf) ≡ x.rdata =
      ap (take (length x.rdata)) after_fixed ∙ take-append_length x.rdata more in
    rw
      (
        skip_name-IsName x.name is_name buf (fixed_bytes x ++ (x.rdata ++ more)) pos split h,
        type_at,
        ttl_at,
        length_at,
        taken,
        whole,
        whole',
        add_record_cases t x f,
      )
      (answers-bytes t xs good buf rest (p + 10 + length x.rdata) (keep t x f) after
          (omega (arith, size''))
        ∙ kept)
  where
    more : List ℕ
    more = concat_map answer_bytes xs ++ rest

    split : drop pos buf ≡ x.name ++ (fixed_bytes x ++ (x.rdata ++ more))
    split =
        e
        ∙ append_assoc (answer_bytes x) (concat_map answer_bytes xs) rest
        ∙ append_assoc x.name (fixed_bytes x ++ x.rdata) more
        ∙ ap (λ l. x.name ++ l) (append_assoc (fixed_bytes x) x.rdata more)

    kept :
        ◌≡◌ {A = Result Error Found}
          (ok (record {
            addrs = (keep t x f).addrs ++ addresses t xs;
            min_ttl = least_ttl t (keep t x f).min_ttl xs;
          }))
          (ok (record {
            addrs = f.addrs ++ addresses t (x ∷ xs);
            min_ttl = least_ttl t f.min_ttl (x ∷ xs);
          }))
    kept = elim (Bool-cases (answers_type t x)) [
      | inl asked ↦
          rw asked (rw (append_assoc f.addrs (address t x.rdata ∷ []) (addresses t xs)) refl)
      | inr other ↦ rw other refl
    ]
