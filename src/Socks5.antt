-- ===== src/Socks5.antt =====
-- socks5.rs, the TCP side: the handshake of RFC 1928 up to the hand-over to the relay. The parser of
-- IP addresses is the standard library's, and the dial of `Outbound::connect_tcp` is an argument.
pub mod Udp
pub mod Replies
pub mod Requests
pub mod Answers
pub mod RoundTrip
pub mod Association
mod Runs
use warp_socks.Prelude.{
  ℕ, ◌+◌, ◌≡◌, List, [], ◌∷◌, ◌++◌, Option, none, some, Bool, true, false, not, ◌||◌, get_or, ◌==◌,
  if◌then◌else◌,
}
use warp_socks.Prelude.Exec.{Exec, pure, raise, continue, ◌>>=◌, ◌>>◌, ignoring, Result, ok, err}
use warp_socks.Prelude.Bytes.{from_be16, to_be16}
use warp_socks.Prelude.Utf8.{is_utf8}
use warp_socks.Net.{
  IpAddr, v4, v6, SocketAddr, Host, domain, ip, Host_parse, Client, IoError, read_exact, write_all,
}

pub data Error : Type 0 where
  io : IoError → Error
  bad_version : ℕ → Error
  no_method : Error
  unsupported_command : ℕ → Error
  unsupported_atyp : ℕ → Error
  name_not_utf8 connect_failed udp_unsupported bind_failed : Error

abbrev pub rep_succeeded : ℕ
rep_succeeded = 0x00

abbrev pub rep_host_unreachable : ℕ
rep_host_unreachable = 0x04

abbrev pub rep_cmd_not_supported : ℕ
rep_cmd_not_supported = 0x07

abbrev pub rep_atyp_not_supported : ℕ
rep_atyp_not_supported = 0x08

abbrev pub cmd_connect : ℕ
cmd_connect = 0x01

abbrev pub cmd_udp_associate : ℕ
cmd_udp_associate = 0x03

abbrev pub reply_bytes : ℕ → List ℕ
reply_bytes rep = 0x05 ∷ rep ∷ 0x00 ∷ 0x01 ∷ 0 ∷ 0 ∷ 0 ∷ 0 ∷ 0 ∷ 0 ∷ []

pub reply : ℕ → Exec Client Error (Unit {0})
reply rep = write_all io (reply_bytes rep)

abbrev address_bytes : IpAddr → List ℕ
address_bytes (v4 octets) = 0x01 ∷ octets
address_bytes (v6 octets) = 0x04 ∷ octets

unfoldable pub reply_with_addr : ℕ → SocketAddr → Exec Client Error (Unit {0})
reply_with_addr rep addr =
    write_all io ((0x05 ∷ rep ∷ 0x00 ∷ []) ++ (address_bytes addr.ip ++ to_be16 addr.port))

pub record Target : Type 0 where
  pub host : Host
  pub port : ℕ

pub data Request : Type 0 where
  connect : Target → Request
  udp_associate : Request

abbrev pub byte_at : List ℕ → ℕ → ℕ
byte_at buf i = get_or buf i 0

abbrev pub port_of : List ℕ → ℕ
port_of buf = from_be16 (byte_at buf 0) (byte_at buf 1)

pub contains_zero : List ℕ → Bool
contains_zero [] = false
contains_zero (m ∷ methods) = m == 0x00 || contains_zero methods

pub read_v4 : Exec Client Error Target
read_v4 = do
  addr ← read_exact io 4
  port ← read_exact io 2
  pure (record { host = ip (v4 addr); port = port_of port })

pub read_v6 : Exec Client Error Target
read_v6 = do
  addr ← read_exact io 16
  port ← read_exact io 2
  pure (record { host = ip (v6 addr); port = port_of port })

pub skip_name : Exec Client Error (Unit {0})
skip_name = do len ← read_exact io 1; _ ← read_exact io (byte_at len 0 + 2); pure tt

pub skip_target : ℕ → Exec Client Error (Unit {0})
unfolding skip_name read_exact
skip_target atyp =
    if atyp == 0x01
    then (read_exact io (4 + 2) >> pure tt)
    else if atyp == 0x04
    then (read_exact io (16 + 2) >> pure tt)
    else if atyp == 0x03
    then skip_name
    else raise (unsupported_atyp atyp)

-- a failed `read_target` is answered before its error is passed on
pub connect_request : Result Error Target → Exec Client Error Request
unfolding reply
connect_request (ok target) = pure (connect target)
connect_request (err error) = ignoring (reply rep_host_unreachable) (raise error)

check_methods : List ℕ → Exec Client Error (Unit {0})
unfolding contains_zero write_all
check_methods methods =
    if contains_zero methods
    then write_all io (0x05 ∷ 0x00 ∷ [])
    else (write_all io (0x05 ∷ 0xff ∷ []) >> raise no_method)

-- the method negotiation: only "no authentication" is accepted
pub negotiate : Exec Client Error (Unit {0})
unfolding read_exact check_methods
negotiate = do
  head ← read_exact io 2
  if not (byte_at head 0 == 0x05)
      then raise (bad_version (byte_at head 0))
      else (read_exact io (byte_at head 1) >>= check_methods)

-- What `handle_connect` hands to `relay::tunnel_tcp`, or the failure of the dial.
unfoldable pub handle_connect {ℓ} :
    {Conn : Type ℓ} → (Host → ℕ → Option Conn) → Target → Exec Client Error Conn
unfolding reply write_all
handle_connect dial target = elim (dial target.host target.port) [
  | none ↦ ignoring (reply rep_host_unreachable) (raise connect_failed)
  | some conn ↦ do reply rep_succeeded; pure conn
]

module _ (parse_ip : List ℕ → Option IpAddr) where
  pub read_name : Exec Client Error Target
  read_name = do
    len ← read_exact io 1
    name ← read_exact io (byte_at len 0)
    port ← read_exact io 2
    if is_utf8 name
        then pure (record { host = Host_parse parse_ip name; port = port_of port })
        else raise name_not_utf8

  pub read_target : ℕ → Exec Client Error Target
  unfolding read_v4 read_v6 read_name read_exact
  read_target atyp =
      if atyp == 0x01
      then read_v4
      else if atyp == 0x04
      then read_v6
      else if atyp == 0x03
      then read_name
      else raise (unsupported_atyp atyp)

  -- what follows the four bytes of a request
  pub command : List ℕ → Exec Client Error Request
  unfolding reply read_target skip_target connect_request
  command req =
      if not (byte_at req 0 == 0x05)
      then raise (bad_version (byte_at req 0))
      else if not (byte_at req 1 == cmd_connect || byte_at req 1 == cmd_udp_associate)
      then ignoring (reply rep_cmd_not_supported) (raise (unsupported_command (byte_at req 1)))
      else if not (byte_at req 3 == 0x01 || byte_at req 3 == 0x03 || byte_at req 3 == 0x04)
      then ignoring (reply rep_atyp_not_supported) (raise (unsupported_atyp (byte_at req 3)))
      else if byte_at req 1 == cmd_udp_associate
      then (skip_target (byte_at req 3) >> pure udp_associate)
      else λ c. let (result, c') = read_target (byte_at req 3) c in connect_request result c'

  pub read_request : Exec Client Error Request
  unfolding negotiate command
  read_request = do negotiate; req ← read_exact io 4; command req

-- `handle_udp_associate` up to its loop. `relay` is the address of the socket that was bound for it, or
-- none when an address could not be read or the socket not be bound.
unfoldable pub handle_udp_associate : Bool → Option SocketAddr → Exec Client Error SocketAddr
unfolding reply reply_with_addr write_all
handle_udp_associate supports_udp relay =
    if not supports_udp
    then (reply rep_cmd_not_supported >> raise udp_unsupported)
    else elim relay [
      | none ↦ raise bind_failed
      | some a ↦ reply_with_addr rep_succeeded a >> pure a
    ]

-- What a connection has become when its handshake is over.
pub data Outcome {ℓ} (Conn : Type ℓ) : Type ℓ where
  tunnel : Target → Conn → Outcome Conn
  association : SocketAddr → Outcome Conn

module _ {ℓ} {Conn : Type ℓ} (dial : Host → ℕ → Option Conn) where
  pub serve_request : Bool → Option SocketAddr → Request → Exec Client Error (Outcome Conn)
  unfolding handle_connect handle_udp_associate
  serve_request supports_udp relay (connect target) =
      handle_connect dial target >>= λ conn. pure (tunnel target conn)
  serve_request supports_udp relay udp_associate =
      handle_udp_associate supports_udp relay >>= λ a. pure (association a)

  unfoldable pub handle_client :
      (List ℕ → Option IpAddr) → Bool → Option SocketAddr → Exec Client Error (Outcome Conn)
  unfolding read_request serve_request
  handle_client parse_ip supports_udp relay =
      read_request parse_ip >>= serve_request supports_udp relay
