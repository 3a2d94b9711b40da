-- ===== src/Dns/Runs.antt =====
-- Runs of the resolver, and its theorems at concrete inputs.
use warp_socks.Prelude.{
  ℕ, ◌+◌, ◌-◌, ◌^◌, ◌≡◌, ◌≢◌, refl, List, [], ◌∷◌, ◌++◌, none, some, true, ltb, leb, ◌&&◌, All,
  length, if◌then◌else◌, min, max, arith, Bool,
}
use warp_socks.Prelude.Exec.{ok, err}
use warp_socks.Prelude.Bytes.{to_be16}
use warp_socks.Net.{v4, SocketAddr}
use warp_socks.Dns.{
  a, bad_label_length, bad_name_length, trim_end_dots, encode_dns_query, parse_dns_response, stuck,
  no_such_name,
}
use warp_socks.Dns.Cache.{
  lookup, CacheKey, get, put, seconds, cache_min_ttl, cache_max_ttl, get-put,
}
use warp_socks.Dns.Resolve.{Event, datagram, silent, await, resolve_inner, resolve_inner-again}
use warp_socks.Dns.Names.{IsName, root, pointer, label}
use warp_socks.Dns.Sections.{Question, Answer, addresses, least_ttl}
use warp_socks.Dns.Response.{message_bytes, parse_dns_response-message_bytes}
use warp_socks.Dns.Total.{parse_dns_response-ne-stuck}
use warp_socks.Dns.Wire.{HasNoDot, all_short, dots, encode_dns_query-query_bytes, query_bytes}

abbrev name_ab : List ℕ
name_ab = b'a' ∷ b'.' ∷ b'b' ∷ []

abbrev wire_ab : List ℕ
wire_ab = 1 ∷ b'a' ∷ 1 ∷ b'b' ∷ 0 ∷ []

IsName-wire_ab : IsName wire_ab
IsName-wire_ab =
    label (b'a' ∷ []) (1 ∷ b'b' ∷ 0 ∷ []) (omega arith) (omega arith)
      (label (b'b' ∷ []) (0 ∷ []) (omega arith) (omega arith) root)

abbrev query_ab : List ℕ
query_ab = to_be16 7 ++ (1 ∷ 0 ∷ 0 ∷ 1 ∷ 0 ∷ 0 ∷ 0 ∷ 0 ∷ 0 ∷ 0 ∷ (wire_ab ++ (0 ∷ 1 ∷ 0 ∷ 1 ∷ [])))

query_is : encode_dns_query 7 name_ab a ≡ ok query_ab
unfolding encode_dns_query
query_is = refl

abbrev questions : List Question
questions = record { name = wire_ab; fields = 0 ∷ 1 ∷ 0 ∷ 1 ∷ [] } ∷ []

-- a CNAME, and then an address
abbrev records : List Answer
records =
    record { name = 0xc0 ∷ 12 ∷ []; rtype = 5; class = 1; ttl = 20; rdata = 0 ∷ [] }
    ∷ record { name = 0xc0 ∷ 12 ∷ []; rtype = 1; class = 1; ttl = 60; rdata = 1 ∷ 2 ∷ 3 ∷ 4 ∷ [] }
    ∷ []

abbrev answer_ab : List ℕ
answer_ab = message_bytes 7 0x8180 0 0 questions records []

parse_dns_response-message_bytes_example :
    parse_dns_response answer_ab 7 a
    ≡ ok (record { addrs = addresses a records; min_ttl = least_ttl a (2 ^ 32 - 1) records })
parse_dns_response-message_bytes_example =
    parse_dns_response-message_bytes a 7 0x8180 0 0 questions records [] (omega arith) (omega arith)
      (omega arith, refl, refl) (omega arith, ((IsName-wire_ab, refl), tt))
      (
        omega arith,
        (
          (
            pointer 0xc0 12 (omega arith) (omega arith),
            omega arith,
            omega arith,
            omega arith,
            omega arith,
          ),
          (
            (
              pointer 0xc0 12 (omega arith) (omega arith),
              omega arith,
              omega arith,
              omega arith,
              omega arith,
            ),
            tt,
          ),
        ),
      )

parsed :
    parse_dns_response answer_ab 7 a
    ≡ ok (record { addrs = v4 (1 ∷ 2 ∷ 3 ∷ 4 ∷ []) ∷ []; min_ttl = 60 })
unfolding parse_dns_response
parsed = refl

name_error :
    parse_dns_response (0 ∷ 7 ∷ 0x81 ∷ 0x83 ∷ 0 ∷ 0 ∷ 0 ∷ 0 ∷ 0 ∷ 0 ∷ 0 ∷ 0 ∷ []) 7 a
    ≡ err no_such_name
unfolding parse_dns_response
name_error = refl

parse_dns_response-ne-stuck_example : parse_dns_response (0 ∷ 7 ∷ 0x80 ∷ 0 ∷ []) 7 a ≢ err stuck
parse_dns_response-ne-stuck_example = parse_dns_response-ne-stuck (0 ∷ 7 ∷ 0x80 ∷ 0 ∷ []) 7 a

encode_dns_query-query_bytes_example :
    (labels : List (List ℕ)) × (dots labels ≡ b'.' ∷ trim_end_dots name_ab)
    × All HasNoDot labels
    × (encode_dns_query 7 name_ab a ≡ (
        if leb 1 (length (trim_end_dots name_ab)) && leb (length (trim_end_dots name_ab)) 253
        then (if all_short labels then ok (query_bytes 7 labels a) else err bad_label_length)
        else err bad_name_length))
encode_dns_query-query_bytes_example = encode_dns_query-query_bytes 7 name_ab a

abbrev server : SocketAddr
server = record { ip = v4 (1 ∷ 1 ∷ 1 ∷ 1 ∷ []); port = 53 }

abbrev key_ab : CacheKey
key_ab = record { server = server; name = name_ab; record_type = a }

get-put_example : get (put [] key_ab (v4 (1 ∷ 2 ∷ 3 ∷ 4 ∷ []) ∷ []) 60 5 6) key_ab 7 ≡ (
    if ltb 7 (6 + min (max (seconds 60) cache_min_ttl) cache_max_ttl)
    then some (v4 (1 ∷ 2 ∷ 3 ∷ 4 ∷ []) ∷ [])
    else none)
get-put_example = get-put [] key_ab (v4 (1 ∷ 2 ∷ 3 ∷ 4 ∷ []) ∷ []) 60 5 6 7

-- the first answer is lost, and the second send is answered
abbrev events_ab : List Event
events_ab = silent ∷ datagram server answer_ab ∷ []

abbrev always : ℕ → Bool
always n = true

resolved :
    (resolve_inner key_ab 7 5 6 6 true events_ab always []).0 ≡ ok (v4 (1 ∷ 2 ∷ 3 ∷ 4 ∷ []) ∷ [])
unfolding resolve_inner await get lookup encode_dns_query parse_dns_response
resolved = refl

resolve_inner-again_example :
    resolve_inner
      (record key_ab { name = b'A' ∷ b'.' ∷ b'b' ∷ [] })
      8
      1000
      1000
      1000
      true
      []
      always
      (resolve_inner key_ab 7 5 6 6 true events_ab always []).1.0
    ≡ (
      ok (v4 (1 ∷ 2 ∷ 3 ∷ 4 ∷ []) ∷ []),
      ((resolve_inner key_ab 7 5 6 6 true events_ab always []).1.0, 0),
    )
unfolding get lookup
resolve_inner-again_example =
    resolve_inner-again key_ab (record key_ab { name = b'A' ∷ b'.' ∷ b'b' ∷ [] }) 7 5 6 6 true
      events_ab always [] (v4 (1 ∷ 2 ∷ 3 ∷ 4 ∷ []) ∷ []) 8 1000 1000 1000 true [] always refl
      resolved refl (omega arith)
