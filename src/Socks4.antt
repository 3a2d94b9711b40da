-- ===== src/Socks4.antt =====
-- socks4.rs: the handshake of SOCKS4 and SOCKS4a up to the hand-over to the relay. The lossy reading
-- of bytes as UTF-8 and the parser of IP addresses are the standard library's.
pub mod RoundTrip
mod Runs
use warp_socks.Prelude.{
  ℕ, zero, suc, ◌≡◌, List, [], ◌∷◌, ◌++◌, Option, none, some, Bool, true, false, not, ◌==◌,
  if◌then◌else◌, get_or,
}
use warp_socks.Prelude.Exec.{Exec, pure, raise, continue, ◌>>=◌, ◌>>◌, ignoring, Result, ok, err}
use warp_socks.Prelude.Bytes.{from_be16}
use warp_socks.Prelude.Utf8.{bytes_eq}
use warp_socks.Net.{IpAddr, v4, Host, ip, Host_parse, Client, IoError, read_exact, write_all}

pub data Error : Type 0 where
  io : IoError → Error
  unsupported_command : ℕ → Error
  too_long connect_failed : Error

abbrev pub cmd_connect : ℕ
cmd_connect = 0x01

abbrev pub granted : ℕ
granted = 0x5a

abbrev pub rejected : ℕ
rejected = 0x5b

abbrev pub sentinel : List ℕ
sentinel = 0 ∷ 0 ∷ 0 ∷ 1 ∷ []

abbrev pub max_userid_len : ℕ
max_userid_len = 1024

abbrev pub max_domain_len : ℕ
max_domain_len = 253

abbrev pub byte_at : List ℕ → ℕ → ℕ
byte_at buf i = get_or buf i 0

-- The loop of `read_cstring`, with the bytes it has read; the first argument is how many more fit.
pub read_cstring : ℕ → List ℕ → Exec Client Error (List ℕ)
read_cstring zero buf = do
  b ← read_exact io 1
  if byte_at b 0 == 0 then pure buf else raise too_long
read_cstring (suc room) buf = do
  b ← read_exact io 1
  if byte_at b 0 == 0 then pure buf else read_cstring room (buf ++ (byte_at b 0 ∷ []))

pub reply : ℕ → Exec Client Error (Unit {0})
reply code = write_all io (0x00 ∷ code ∷ 0 ∷ 0 ∷ 0 ∷ 0 ∷ 0 ∷ 0 ∷ [])

pub record Target : Type 0 where
  pub host : Host
  pub port : ℕ

module _ (lossy : List ℕ → List ℕ) (parse_ip : List ℕ → Option IpAddr) where
  -- what follows the port and the address
  pub read_target : ℕ → List ℕ → Exec Client Error Target
  read_target port address = do
    _ ← read_cstring max_userid_len []
    if bytes_eq address sentinel
        then (do
          name ← read_cstring max_domain_len []
          pure (record { host = Host_parse parse_ip (lossy name); port = port }))
        else pure (record { host = ip (v4 address); port = port })

  pub read_address : Exec Client Error Target
  read_address = do
    port ← read_exact io 2
    address ← read_exact io 4
    read_target (from_be16 (byte_at port 0) (byte_at port 1)) address

  pub check_command : ℕ → Exec Client Error Target
  check_command cmd =
      if not (cmd == cmd_connect)
      then ignoring (reply rejected) (raise (unsupported_command cmd))
      else read_address

  pub read_request : Exec Client Error Target
  unfolding check_command read_address read_target read_cstring reply
  read_request = do _ ← read_exact io 1; cmd ← read_exact io 1; check_command (byte_at cmd 0)

  pub handle_client {ℓ} :
      {Conn : Type ℓ} → (Host → ℕ → Option Conn) → Exec Client Error (Target × Conn)
  unfolding read_request
  handle_client dial = read_request >>= λ target. elim (dial target.host target.port) [
    | none ↦ ignoring (reply rejected) (raise connect_failed)
    | some conn ↦ reply granted >>= λ _. pure (target, conn)
  ]
