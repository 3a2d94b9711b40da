-- ===== src/Socks5/Udp/Header.antt =====
-- The header of a relayed datagram: what is written is read back, and what is read lies inside it.
use native.Mathlib.Nat.{zero-add, suc-add}
use mathlib.Core.List.{append_assoc}
use warp_socks.Prelude.{
  ℕ, suc, ◌+◌, ◌<◌, ◌≤◌, ◌^◌, ◌/◌, ◌%◌, ◌≡◌, refl, sym, ap, ◌∙◌, List, [], ◌∷◌, ◌++◌, some, false,
  length, take, get_or, ltb, arith, take-append_length, length-append, zero,
}
use warp_socks.Prelude.Bytes.{to_be16, from_be16, from_be16-to_be16}
use warp_socks.Net.{IpAddr, v4, v6, IsIp, SocketAddr}
use warp_socks.Socks5.Udp.{SocketAddrOrName, addr, decode_udp_header, encode_udp_header}

get_or-append :
    (n : ℕ) (xs ys : List ℕ) (i : ℕ) → length xs ≡ n → get_or (xs ++ ys) (n + i) 0 ≡ get_or ys i 0
get_or-append zero [] ys i h = rw zero-add refl
get_or-append zero (x ∷ xs) ys i h = absurd (omega (arith, h))
get_or-append (suc n) [] ys i h = absurd (omega (arith, h))
get_or-append (suc n) (x ∷ xs) ys i h = rw suc-add (get_or-append n xs ys i (omega (arith, h)))

v4_back :
    (octets payload : List ℕ) (hi lo : ℕ)
    → length octets ≡ 4
    → decode_udp_header (0 ∷ 0 ∷ 0 ∷ 0x01 ∷ (octets ++ (hi ∷ lo ∷ payload)))
      ≡ some (addr (record { ip = v4 octets; port = from_be16 hi lo }), 10)
unfolding decode_udp_header
v4_back octets payload hi lo h = rw (whole, enough, taken, first, second) refl
  where
    rest : List ℕ
    rest = octets ++ (hi ∷ lo ∷ payload)

    size : length rest ≡ 4 + suc (suc (length payload))
    size = length-append octets (hi ∷ lo ∷ payload) ∙ ap (λ n. n + length (hi ∷ lo ∷ payload)) h

    whole : ltb (suc (suc (suc (suc (length rest))))) 4 ≡ false
    whole = ground arith

    enough : ltb (suc (suc (suc (suc (length rest))))) 10 ≡ false
    enough = rw size (ground arith)

    taken : take 4 rest ≡ octets
    taken = ap (λ n. take n rest) (sym h) ∙ take-append_length octets (hi ∷ lo ∷ payload)

    first : get_or rest 4 0 ≡ hi
    first = get_or-append 4 octets (hi ∷ lo ∷ payload) 0 h

    second : get_or rest 5 0 ≡ lo
    second = get_or-append 4 octets (hi ∷ lo ∷ payload) 1 h

v6_back :
    (octets payload : List ℕ) (hi lo : ℕ)
    → length octets ≡ 16
    → decode_udp_header (0 ∷ 0 ∷ 0 ∷ 0x04 ∷ (octets ++ (hi ∷ lo ∷ payload)))
      ≡ some (addr (record { ip = v6 octets; port = from_be16 hi lo }), 22)
unfolding decode_udp_header
v6_back octets payload hi lo h = rw (whole, enough, taken, first, second) refl
  where
    rest : List ℕ
    rest = octets ++ (hi ∷ lo ∷ payload)

    size : length rest ≡ 16 + suc (suc (length payload))
    size = length-append octets (hi ∷ lo ∷ payload) ∙ ap (λ n. n + length (hi ∷ lo ∷ payload)) h

    whole : ltb (suc (suc (suc (suc (length rest))))) 4 ≡ false
    whole = ground arith

    enough : ltb (suc (suc (suc (suc (length rest))))) 22 ≡ false
    enough = rw size (ground arith)

    taken : take 16 rest ≡ octets
    taken = ap (λ n. take n rest) (sym h) ∙ take-append_length octets (hi ∷ lo ∷ payload)

    first : get_or rest 16 0 ≡ hi
    first = get_or-append 16 octets (hi ∷ lo ∷ payload) 0 h

    second : get_or rest 17 0 ≡ lo
    second = get_or-append 16 octets (hi ∷ lo ∷ payload) 1 h

encoded :
    (i : IpAddr) (port : ℕ) (payload : List ℕ)
    → IsIp i
    → port < 2 ^ 16
    → decode_udp_header (encode_udp_header (record { ip = i; port = port }) ++ payload)
      ≡ some (
        addr (record { ip = i; port = port }),
        length (encode_udp_header (record { ip = i; port = port })),
      )
unfolding encode_udp_header
encoded (v4 octets) port payload good h =
    rw (append_assoc octets (to_be16 port) payload, length-append octets (to_be16 port), good)
      (v4_back octets payload (port / 256 % 256) (port % 256) good
        ∙ rw (from_be16-to_be16 port h) refl)
encoded (v6 octets) port payload good h =
    rw (append_assoc octets (to_be16 port) payload, length-append octets (to_be16 port), good)
      (v6_back octets payload (port / 256 % 256) (port % 256) good
        ∙ rw (from_be16-to_be16 port h) refl)

-- A datagram with the header of an address is split back into the address and its payload: the
-- header's length is where the payload begins.
pub decode_udp_header-encode_udp_header :
    (a : SocketAddr) (payload : List ℕ)
    → IsIp a.ip
    → a.port < 2 ^ 16
    → decode_udp_header (encode_udp_header a ++ payload)
      ≡ some (addr a, length (encode_udp_header a))
decode_udp_header-encode_udp_header a payload good h = encoded a.ip a.port payload good h

-- A header that is read has at least seven bytes, is not longer than its datagram, and is not that of
-- a fragment.
pub decode_udp_header_bounds :
    (buf : List ℕ) (target : SocketAddrOrName) (len : ℕ)
    → decode_udp_header buf ≡ some (target, len)
    → (7 ≤ len) × (len ≤ length buf) × (get_or buf 2 0 ≡ 0)
unfolding decode_udp_header
decode_udp_header_bounds buf target len h = ground arith
