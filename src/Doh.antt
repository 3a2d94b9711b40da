-- ===== src/Doh.antt =====
-- outbound/masque/doh.rs: the cache of names, and one DNS query over HTTP/1.1. TLS is a library, and so is
-- `httparse`, which is an argument.
pub mod Eviction
pub mod Reading
pub mod Runs
use warp_socks.Prelude.{
  ℕ, ◌+◌, ◌*◌, List, [], ◌∷◌, ◌++◌, Option, none, some, Bool, true, false, not, if◌then◌else◌, ◌&&◌,
  ◌==◌, leb, ltb, length, take, drop, min, max, filter,
}
use warp_socks.Prelude.Exec.{Result, ok, err}
use warp_socks.Prelude.Utf8.{bytes_eq, is_utf8, to_ascii_lowercase}
use warp_socks.Dns
use warp_socks.Dns.{RecordType, encode_dns_query, parse_dns_response}
use warp_socks.Net.{IpAddr}

-- Instants and spans are counted in nanoseconds.
abbrev pub seconds : ℕ → ℕ
seconds n = n * 1000000000

abbrev pub min_ttl : ℕ
min_ttl = seconds 5

abbrev pub max_ttl : ℕ
max_ttl = seconds 300

abbrev pub max_cache_entries : ℕ
max_cache_entries = 512

pub record CacheEntry : Type 0 where
  pub ip : IpAddr
  pub expires_at : ℕ

-- the map, in the order in which it is iterated
abbrev pub DnsCache : Type 0
DnsCache = List (List ℕ × CacheEntry)

pub lookup : List ℕ → DnsCache → Option CacheEntry
lookup domain [] = none
lookup domain ((name, entry) ∷ entries) =
    if bytes_eq name domain then some entry else lookup domain entries

pub without : List ℕ → DnsCache → DnsCache
without domain [] = []
without domain ((name, entry) ∷ entries) =
    if bytes_eq name domain then without domain entries else (name, entry) ∷ without domain entries

-- the address, and the cache without the entry if it has expired
pub cached : DnsCache → List ℕ → ℕ → Option IpAddr × DnsCache
cached cache domain now = elim (lookup domain cache) [
  | none ↦ (none, cache)
  | some entry ↦
      if ltb now entry.expires_at then (some entry.ip, cache) else (none, without domain cache)
]

pub unexpired : ℕ → DnsCache → DnsCache
unexpired now [] = []
unexpired now ((name, entry) ∷ entries) =
    if ltb now entry.expires_at
    then (name, entry) ∷ unexpired now entries
    else unexpired now entries

-- `min_by_key`: the first of the entries that expire first
pub victim_after : List ℕ × CacheEntry → DnsCache → List ℕ × CacheEntry
victim_after best [] = best
victim_after best (e ∷ entries) =
    victim_after (if ltb e.1.expires_at best.1.expires_at then e else best) entries

pub evict_one : DnsCache → DnsCache
evict_one [] = []
evict_one (e ∷ entries) = without (victim_after e entries).0 (e ∷ entries)

-- `!contains_key(domain) && len() >= MAX_CACHE_ENTRIES`, by the entry of the name
abbrev pub is_full : Option CacheEntry → ℕ → Bool
is_full none size = leb max_cache_entries size
is_full (some entry) size = false

pub evict : DnsCache → ℕ → DnsCache
evict cache now =
    let kept = unexpired now cache in
    if leb max_cache_entries (length kept) then evict_one kept else kept

pub make_room : DnsCache → List ℕ → ℕ → DnsCache
make_room cache domain now =
    if is_full (lookup domain cache) (length cache) then evict cache now else cache

pub store : DnsCache → List ℕ → IpAddr → ℕ → ℕ → DnsCache
store cache domain ip ttl now =
    (domain, record { ip = ip; expires_at = now + min (max ttl min_ttl) max_ttl })
    ∷ without domain (make_room cache domain now)

-- What goes wrong while a response is read. `read_failed` is also the time-out of the whole read.
pub data Error : Type 0 where
  read_failed closed_in_header header_too_large bad_header no_content_length closed_in_body : Error
  status : ℕ → Error

-- the search for a blank line, which gives the position behind it
pub starts_with : List ℕ → List ℕ → Bool
starts_with [] buf = true
starts_with (p ∷ ps) [] = false
starts_with (p ∷ ps) (b ∷ buf) = b == p && starts_with ps buf

abbrev pub blank_line : List ℕ
blank_line = b'\r' ∷ b'\n' ∷ b'\r' ∷ b'\n' ∷ []

abbrev pub end_in : Bool → Option ℕ → Option ℕ
end_in true rest = some 4
end_in false none = none
end_in false (some n) = some (n + 1)

pub header_end : List ℕ → Option ℕ
header_end [] = none
header_end (b ∷ buf) = end_in (starts_with blank_line (b ∷ buf)) (header_end buf)

-- The stream is the list of what its reads give: a chunk of at most 512 bytes, which is empty at the
-- end of the stream; behind the last one reads fail.
unfoldable pub read_header : List ℕ → List (List ℕ) → Result Error ((List ℕ × ℕ) × List (List ℕ))
read_header buf [] = err read_failed
read_header buf (chunk ∷ chunks) =
    let buf = buf ++ chunk in
    let rest = read_header buf chunks in
    if length chunk == 0 then err closed_in_header else elim (header_end buf) [
      | some n ↦ ok ((buf, n), chunks)
      | none ↦ if ltb 8192 (length buf) then err header_too_large else rest
    ]

unfoldable pub read_body : ℕ → List ℕ → List (List ℕ) → Result Error (List ℕ)
read_body content_length body [] =
    if ltb (length body) content_length then err read_failed else ok (take content_length body)
read_body content_length body (chunk ∷ chunks) =
    let rest = read_body content_length (body ++ chunk) chunks in
    if ltb (length body) content_length
    then (if length chunk == 0 then err closed_in_body else rest)
    else ok (take content_length body)

-- httparse's response: the status, if there is one, and the headers with their values
abbrev pub Headers : Type 0
Headers = List (List ℕ × List ℕ)

abbrev pub content_length_name : List ℕ
content_length_name =
    b'c' ∷ b'o' ∷ b'n' ∷ b't' ∷ b'e' ∷ b'n' ∷ b't' ∷ b'-' ∷ b'l' ∷ b'e' ∷ b'n' ∷ b'g' ∷ b't' ∷ b'h'
    ∷ []

pub find_header : List ℕ → Headers → Option (List ℕ)
find_header name [] = none
find_header name ((n, value) ∷ headers) =
    if bytes_eq (to_ascii_lowercase n) name then some value else find_header name headers

abbrev or_zero : Option ℕ → ℕ
or_zero none = 0
or_zero (some n) = n

-- `parse_number` is `trim` and `parse::<usize>` of the standard library.
module _ (parse : List ℕ → Option (Option ℕ × Headers)) (parse_number : List ℕ → Option ℕ) where
  pub content_length : Headers → Option ℕ
  unfolding find_header
  content_length headers = elim (find_header content_length_name headers) [
    | none ↦ none
    | some value ↦ if is_utf8 value then parse_number value else none
  ]

  pub read_with : Option (Option ℕ × Headers) → List ℕ → List (List ℕ) → Result Error (List ℕ)
  unfolding content_length
  read_with none body chunks = err bad_header
  read_with (some (code, headers)) body chunks =
      if not (or_zero code == 200)
      then err (status (or_zero code))
      else elim (content_length headers) [
        | none ↦ err no_content_length
        | some n ↦ read_body n body chunks
      ]

  unfoldable pub read_http_response : List (List ℕ) → Result Error (List ℕ)
  unfolding read_with
  read_http_response chunks = elim (read_header [] chunks) [
    | err e ↦ err e
    | ok ((buf, n), rest) ↦ read_with (parse (take n buf)) (drop n buf) rest
  ]

abbrev request_head : List ℕ
request_head =
    b'P' ∷ b'O' ∷ b'S' ∷ b'T' ∷ b' ' ∷ b'/' ∷ b'd' ∷ b'n' ∷ b's' ∷ b'-' ∷ b'q' ∷ b'u' ∷ b'e' ∷ b'r'
    ∷ b'y' ∷ b' ' ∷ b'H' ∷ b'T' ∷ b'T' ∷ b'P' ∷ b'/' ∷ b'1' ∷ b'.' ∷ b'1' ∷ b'\r' ∷ b'\n' ∷ b'h'
    ∷ b'o' ∷ b's' ∷ b't' ∷ b':' ∷ b' ' ∷ b'c' ∷ b'l' ∷ b'o' ∷ b'u' ∷ b'd' ∷ b'f' ∷ b'l' ∷ b'a'
    ∷ b'r' ∷ b'e' ∷ b'-' ∷ b'd' ∷ b'n' ∷ b's' ∷ b'.' ∷ b'c' ∷ b'o' ∷ b'm' ∷ b'\r' ∷ b'\n' ∷ b'c'
    ∷ b'o' ∷ b'n' ∷ b't' ∷ b'e' ∷ b'n' ∷ b't' ∷ b'-' ∷ b't' ∷ b'y' ∷ b'p' ∷ b'e' ∷ b':' ∷ b' '
    ∷ b'a' ∷ b'p' ∷ b'p' ∷ b'l' ∷ b'i' ∷ b'c' ∷ b'a' ∷ b't' ∷ b'i' ∷ b'o' ∷ b'n' ∷ b'/' ∷ b'd'
    ∷ b'n' ∷ b's' ∷ b'-' ∷ b'm' ∷ b'e' ∷ b's' ∷ b's' ∷ b'a' ∷ b'g' ∷ b'e' ∷ b'\r' ∷ b'\n' ∷ b'a'
    ∷ b'c' ∷ b'c' ∷ b'e' ∷ b'p' ∷ b't' ∷ b':' ∷ b' ' ∷ b'a' ∷ b'p' ∷ b'p' ∷ b'l' ∷ b'i' ∷ b'c'
    ∷ b'a' ∷ b't' ∷ b'i' ∷ b'o' ∷ b'n' ∷ b'/' ∷ b'd' ∷ b'n' ∷ b's' ∷ b'-' ∷ b'm' ∷ b'e' ∷ b's'
    ∷ b's' ∷ b'a' ∷ b'g' ∷ b'e' ∷ b'\r' ∷ b'\n' ∷ b'c' ∷ b'o' ∷ b'n' ∷ b't' ∷ b'e' ∷ b'n' ∷ b't'
    ∷ b'-' ∷ b'l' ∷ b'e' ∷ b'n' ∷ b'g' ∷ b't' ∷ b'h' ∷ b':' ∷ b' ' ∷ []

abbrev request_tail : List ℕ
request_tail =
    b'\r' ∷ b'\n' ∷ b'c' ∷ b'o' ∷ b'n' ∷ b'n' ∷ b'e' ∷ b'c' ∷ b't' ∷ b'i' ∷ b'o' ∷ b'n' ∷ b':'
    ∷ b' ' ∷ b'c' ∷ b'l' ∷ b'o' ∷ b's' ∷ b'e' ∷ b'\r' ∷ b'\n' ∷ b'\r' ∷ b'\n' ∷ []

-- `decimal` is the formatting of a number by the standard library
pub build_http_request : (ℕ → List ℕ) → List ℕ → List ℕ
build_http_request decimal body = request_head ++ decimal (length body) ++ request_tail ++ body

pub data ResolveError : Type 0 where
  not_sent no_address : ResolveError
  bad_query bad_message : Dns.Error → ResolveError
  bad_response : Error → ResolveError

-- One query over a stream, within the TLS session: `exchange` gives what the reads give once the request
-- has been written, or `none` if the handshake or the writing fails.
module _ (parse : List ℕ → Option (Option ℕ × Headers)) (parse_number : List ℕ → Option ℕ)
    (decimal : ℕ → List ℕ) (exchange : List ℕ → Option (List (List ℕ))) where
  abbrev first_address :
      DnsCache → List ℕ → ℕ → List IpAddr → ℕ → Result ResolveError IpAddr × DnsCache
  first_address cache domain now [] ttl = (err no_address, cache)
  first_address cache domain now (ip ∷ ips) ttl = (ok ip, store cache domain ip (seconds ttl) now)

  pub answered :
      DnsCache → List ℕ → RecordType → ℕ → List (List ℕ) → Result ResolveError IpAddr × DnsCache
  answered cache domain record_type now chunks =
      elim (read_http_response parse parse_number chunks) [
        | err e ↦ (err (bad_response e), cache)
        | ok body ↦ elim (parse_dns_response body 0 record_type) [
          | err e ↦ (err (bad_message e), cache)
          | ok found ↦ first_address cache domain now found.addrs found.min_ttl
        ]
      ]

  pub resolve_over : DnsCache → List ℕ → RecordType → ℕ → Result ResolveError IpAddr × DnsCache
  unfolding answered
  resolve_over cache domain record_type now = elim (encode_dns_query 0 domain record_type) [
    | err e ↦ (err (bad_query e), cache)
    | ok query ↦ elim (exchange (build_http_request decimal query)) [
      | none ↦ (err not_sent, cache)
      | some chunks ↦ answered cache domain record_type now chunks
    ]
  ]
