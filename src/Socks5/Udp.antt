-- ===== src/Socks5/Udp.antt =====
-- socks5.rs, the UDP side: the header of a relayed datagram (RFC 1928, section 7).
pub mod Header
use warp_socks.Prelude.{
  ℕ, ◌+◌, List, [], ◌∷◌, ◌++◌, Option, none, some, Bool, not, ◌&&◌, length, get_or, take, drop, ltb,
  ◌==◌, if◌then◌else◌, map,
}
use warp_socks.Prelude.Bytes.{from_be16, to_be16}
use warp_socks.Prelude.Utf8.{is_utf8, to_ascii_lowercase}
use warp_socks.Net.{IpAddr, v4, v6, SocketAddr, Host, ip, Host_parse}

pub data SocketAddrOrName : Type 0 where
  addr : SocketAddr → SocketAddrOrName
  name : List ℕ → ℕ → SocketAddrOrName

abbrev byte_at : List ℕ → ℕ → ℕ
byte_at buf i = get_or buf i 0

abbrev pub port_at : List ℕ → ℕ → ℕ
port_at buf pos = from_be16 (byte_at buf pos) (byte_at buf (pos + 1))

-- the target, and the length of the header
pub decode_udp_header : List ℕ → Option (SocketAddrOrName × ℕ)
decode_udp_header buf =
    if ltb (length buf) 4
    then none
    else if not (byte_at buf 2 == 0x00)
    then none
    else if byte_at buf 3 == 0x01
    then (if ltb (length buf) (4 + 4 + 2)
        then none
        else some (addr (record { ip = v4 (take 4 (drop 4 buf)); port = port_at buf 8 }), 10))
    else if byte_at buf 3 == 0x04
    then (if ltb (length buf) (4 + 16 + 2)
        then none
        else some (addr (record { ip = v6 (take 16 (drop 4 buf)); port = port_at buf 20 }), 22))
    else if byte_at buf 3 == 0x03
    then (if ltb (length buf) (4 + 1)
        then none
        else let len = byte_at buf 4 in
          if ltb (length buf) (5 + len + 2)
          then none
          else if is_utf8 (take len (drop 5 buf))
          then some (
            name (to_ascii_lowercase (take len (drop 5 buf))) (port_at buf (5 + len)),
            5 + len + 2,
          )
          else none)
    else none

pub encode_udp_header : SocketAddr → List ℕ
encode_udp_header target = elim target.ip [
  | v4 octets ↦ 0 ∷ 0 ∷ 0 ∷ 0x01 ∷ (octets ++ to_be16 target.port)
  | v6 octets ↦ 0 ∷ 0 ∷ 0 ∷ 0x04 ∷ (octets ++ to_be16 target.port)
]

unfoldable pub target_host_port : (List ℕ → Option IpAddr) → SocketAddrOrName → Host × ℕ
target_host_port parse_ip (addr a) = (ip a.ip, a.port)
target_host_port parse_ip (name n port) = (Host_parse parse_ip n, port)
