-- ===== src/Dns/Response.antt =====
-- What `parse_dns_response` of dns.rs makes of a message, well formed or not.
use warp_socks.Prelude.{
  ℕ, ◌+◌, ◌-◌, ◌^◌, ◌<◌, ◌≡◌, ◌≢◌, refl, List, [], ◌++◌, false, length, drop, ltb, bit_and, arith,
  drop-append, All, eq→==, ne→==,
}
use warp_socks.Prelude.Exec.{ok}
use warp_socks.Prelude.Bytes.{to_be16, from_be16-to_be16}
use warp_socks.Dns.{RecordType, check_flags, parse_dns_response}
use warp_socks.Dns.Sections.{
  Question, IsQuestion, question_bytes, Answer, IsAnswer, answer_bytes, concat_map, addresses,
  least_ttl, skip_questions-bytes, answers-bytes,
}

-- a whole message: its header, whose counts are those of its questions and answers, and what follows
-- the answers (the authority and additional sections)
abbrev pub message_bytes : ℕ → ℕ → ℕ → ℕ → List Question → List Answer → List ℕ → List ℕ
message_bytes id flags nscount arcount qs xs rest =
    to_be16 id
    ++ (to_be16 flags
        ++ (to_be16 (length qs)
            ++ (to_be16 (length xs)
                ++ (to_be16 nscount
                    ++ (to_be16 arcount
                        ++ (concat_map question_bytes qs
                            ++ (concat_map answer_bytes xs ++ rest)))))))

-- the flags of an answer that is whole and reports no error
abbrev pub IsSuccess : ℕ → Type 0
IsSuccess flags =
    (bit_and flags 0x8000 ≢ 0) × (bit_and flags 0x0200 ≡ 0) × (bit_and flags 0x000f ≡ 0)

check_flags-IsSuccess : (flags : ℕ) → IsSuccess flags → check_flags flags ≡ ok tt
unfolding check_flags
check_flags-IsSuccess flags (response, whole, noerror) =
    rw
      (
        ne→== (bit_and flags 0x8000) 0 response,
        eq→== (bit_and flags 0x0200) 0 whole,
        eq→== (bit_and flags 0x000f) 0 noerror,
      )
      refl

-- From a response to this query that is whole and reports no error, with names of labels and
-- pointers and fewer than 65536 questions and answers, exactly the addresses of the answers of the
-- asked type are returned, in their order, with the least of their times to live, whatever stands in
-- the questions, in answers of other types (CNAME) and in the sections after the answers.
pub parse_dns_response-message_bytes :
    (t : RecordType) (id flags : ℕ) (nscount arcount : ℕ) (qs : List Question) (xs : List Answer)
    (rest : List ℕ)
    → id < 2 ^ 16
    → flags < 2 ^ 16
    → IsSuccess flags
    → (length qs < 2 ^ 16) × All IsQuestion qs
    → (length xs < 2 ^ 16) × All IsAnswer xs
    → parse_dns_response (message_bytes id flags nscount arcount qs xs rest) id t
      ≡ ok (record { addrs = addresses t xs; min_ttl = least_ttl t (2 ^ 32 - 1) xs })
unfolding parse_dns_response
parse_dns_response-message_bytes t id flags nscount arcount qs xs rest id16 flags16 success
      (qs16, questions) (xs16, records) =
    rw
      (
        long,
        from_be16-to_be16 id id16,
        eq→== id id refl,
        from_be16-to_be16 flags flags16,
        check_flags-IsSuccess flags success,
        from_be16-to_be16 (length qs) qs16,
        skip_questions-bytes qs questions buf (concat_map answer_bytes xs ++ rest) 12 refl
            (omega arith),
        from_be16-to_be16 (length xs) xs16,
      )
      (answers-bytes t xs records buf rest (12 + length (concat_map question_bytes qs))
        (record { addrs = []; min_ttl = 2 ^ 32 - 1 }) after.0 (omega (arith, after.1)))
  where
    buf : List ℕ
    buf = message_bytes id flags nscount arcount qs xs rest

    long : ltb (length buf) 12 ≡ false
    long = ground arith

    after :
        (drop (12 + length (concat_map question_bytes qs)) buf ≡ concat_map answer_bytes xs ++ rest)
        × (12 + length (concat_map question_bytes qs) + length (concat_map answer_bytes xs ++ rest)
            ≡ length buf)
    after =
        drop-append 12 buf (concat_map question_bytes qs) (concat_map answer_bytes xs ++ rest) refl
          (omega arith)
