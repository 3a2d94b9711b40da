-- ===== src/Net.antt =====
-- What the protocol modules share: the addresses of std::net, a client's TCP stream, `Host` of
-- outbound/mod.rs, and `connect` and the hand-over to `tunnel_tcp` of relay.rs.
pub mod Talk
use warp_socks.Prelude.{
  ℕ, zero, suc, ◌+◌, ◌-◌, ◌<◌, ◌≡◌, refl, eq→==, List, [], ◌∷◌, ◌++◌, Option, none, some, Bool,
  false, true, ◌&&◌, length, take, drop, ltb, leb, ◌==◌, if◌then◌else◌,
}
use warp_socks.Prelude.Exec.{Result, ok, err, Exec}
use warp_socks.Prelude.Bytes.{IsByte}
use warp_socks.Prelude.Utf8.{bytes_eq, bytes_eq_refl}

-- std::net::IpAddr, by its octets
pub data IpAddr : Type 0 where
  v4 : List ℕ → IpAddr
  v6 : List ℕ → IpAddr

abbrev pub IsIp : IpAddr → Type 0
IsIp (v4 octets) = length octets ≡ 4
IsIp (v6 octets) = length octets ≡ 16

pub record SocketAddr : Type 0 where
  pub ip : IpAddr
  pub port : ℕ

abbrev pub ip_eq : IpAddr → IpAddr → Bool
ip_eq (v4 a) (v4 b) = bytes_eq a b
ip_eq (v6 a) (v6 b) = bytes_eq a b
ip_eq (v4 a) (v6 b) = false
ip_eq (v6 a) (v4 b) = false

-- The scope and the flow of an IPv6 socket address are not kept.
abbrev pub addr_eq : SocketAddr → SocketAddr → Bool
addr_eq a b = ip_eq a.ip b.ip && a.port == b.port

pub ip_eq_refl : (i : IpAddr) → ip_eq i i ≡ true
ip_eq_refl (v4 octets) = bytes_eq_refl octets
ip_eq_refl (v6 octets) = bytes_eq_refl octets

pub addr_eq_refl : (a : SocketAddr) → addr_eq a a ≡ true
addr_eq_refl a = rw (ip_eq_refl a.ip, eq→== a.port a.port refl) refl

-- outbound/mod.rs: a text is the list of its bytes
pub data Host : Type 0 where
  domain : List ℕ → Host
  ip : IpAddr → Host

-- `Host::parse`, over the address parser of the standard library
unfoldable pub Host_parse : (List ℕ → Option IpAddr) → List ℕ → Host
Host_parse parse_ip s = elim (parse_ip s) [ some a ↦ ip a | none ↦ domain s ]

-- A client's stream: the bytes that will still arrive, and those sent to it. After the last byte a
-- read fails (end of stream, reset, or the handshake's deadline); `writes` counts the writes that
-- succeed before the client is gone.
pub record Client : Type 0 where
  pub input : List ℕ
  pub output : List ℕ
  pub writes : ℕ

pub data IoError : Type 0 where
  read_failed write_failed : IoError

module _ {ℓ} {E : Type ℓ} (io : IoError → E) where
  -- `read_exact` into a buffer of `n` bytes
  unfoldable pub read_exact : ℕ → Exec Client E (List ℕ)
  read_exact n c =
      if ltb (length c.input) n
      then (err (io read_failed), record c { input = [] })
      else (ok (take n c.input), record c { input = drop n c.input })

  unfoldable pub write_on : List ℕ → ℕ → Exec Client E (Unit {0})
  write_on bytes zero c = (err (io write_failed), c)
  write_on bytes (suc k) c = (ok tt, record c { output = c.output ++ bytes; writes = k })

  unfoldable pub write_all : List ℕ → Exec Client E (Unit {0})
  unfolding write_on
  write_all bytes c = write_on bytes c.writes c
