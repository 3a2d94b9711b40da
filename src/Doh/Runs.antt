-- ===== src/Doh/Runs.antt =====
-- A response in three chunks, and a cache with one name.
use warp_socks.Prelude.{
  ℕ, ◌+◌, ◌≤◌, ◌≡◌, refl, List, [], ◌∷◌, Option, none, some, length, if◌then◌else◌, ltb, min, max,
  arith,
}
use warp_socks.Prelude.Exec.{ok}
use warp_socks.Prelude.Utf8.{is_utf8}
use warp_socks.Net.{IpAddr, v4}
use warp_socks.Doh.{
  Headers, blank_line, cached, content_length, content_length_name, find_header, header_end,
  max_ttl, min_ttl, read_http_response, seconds, starts_with, store,
}
use warp_socks.Doh.Eviction.{cached-store}
use warp_socks.Doh.Reading.{read_http_response-body}

abbrev parsed : Headers
parsed = (content_length_name, b'2' ∷ []) ∷ []

abbrev parse : List ℕ → Option (Option ℕ × Headers)
parse head = some (some 200, parsed)

abbrev parse_number : List ℕ → Option ℕ
parse_number text = some 2

abbrev chunks : List (List ℕ)
chunks = (b'\r' ∷ b'\n' ∷ []) ∷ (b'\r' ∷ b'\n' ∷ 7 ∷ []) ∷ (8 ∷ 9 ∷ []) ∷ []

read_http_response-body_example : read_http_response parse parse_number chunks ≡ ok (7 ∷ 8 ∷ [])
unfolding header_end starts_with content_length find_header is_utf8
read_http_response-body_example =
    read_http_response-body parse parse_number parsed blank_line (7 ∷ 8 ∷ []) (9 ∷ []) chunks
      (omega arith, (omega arith, (omega arith, tt))) refl refl (omega arith) refl refl

abbrev address : IpAddr
address = v4 (1 ∷ 2 ∷ 3 ∷ 4 ∷ [])

cached-store_example :
    (length (store [] (b'a' ∷ []) address (seconds 1) 100) ≤ 512)
    × ((cached (store [] (b'a' ∷ []) address (seconds 1) 100) (b'a' ∷ []) 200).0
        ≡ (if ltb 200 (100 + min (max (seconds 1) min_ttl) max_ttl) then some address else none))
cached-store_example = cached-store [] (b'a' ∷ []) address (seconds 1) 100 200 (omega arith)
