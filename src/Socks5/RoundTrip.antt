-- ===== src/Socks5/RoundTrip.antt =====
-- What a client puts on the wire is what the server reads back: the CONNECT request of RFC 1928, and
-- the header of a relayed datagram.
use warp_socks.Prelude.{
  ℕ, suc, ◌<◌, ◌^◌, ◌≡◌, refl, sym, ap, ◌∙◌, List, [], ◌∷◌, ◌++◌, Option, none, true, false, not,
  length, ltb, ◌==◌, if◌then◌else◌, arith, take-append_length, drop-append_length, length-append,
}
use warp_socks.Prelude.Exec.{Result, ok, Exec, continue, ◌>>=◌, pure, raise}
use warp_socks.Prelude.Bytes.{to_be16, from_be16-to_be16}
use warp_socks.Prelude.Utf8.{is_utf8}
use warp_socks.Net.{
  IpAddr, v4, v6, IsIp, Host, domain, ip, Host_parse, Client, read_exact, write_all, write_on,
}
use warp_socks.Socks5.{
  Error, io, name_not_utf8, bad_version, Target, connect, byte_at, port_of, contains_zero, read_v4,
  read_v6, read_name, read_target, connect_request, check_methods, negotiate, command, read_request,
}

-- reading exactly what comes first
read_exact-append :
    (n : ℕ) (bytes rest out : List ℕ) (k : ℕ)
    → length bytes ≡ n
    → ◌≡◌ {A = Result Error (List ℕ) × Client}
        (read_exact io n (record { input = bytes ++ rest; output = out; writes = k }))
        (ok bytes, record { input = rest; output = out; writes = k })
unfolding read_exact
read_exact-append n bytes rest out k h =
    rw (sym h, read_exact, long, take-append_length bytes rest, drop-append_length bytes rest) refl
  where
    long : ltb (length (bytes ++ rest)) (length bytes) ≡ false
    long = rw (length-append bytes rest) (ground arith)

abbrev Ran {ℓ} : {A : Type ℓ} → Result Error A × Client → A → List ℕ → List ℕ → ℕ → Type ℓ
Ran r a input output writes = r ≡ (ok a, record { input = input; output = output; writes = writes })

-- a read of what comes first, and then the rest of the action
read_then {ℓ} :
    {A : Type ℓ} (n : ℕ) (f : List ℕ → Exec Client Error A) (bytes rest out : List ℕ) (k : ℕ)
    → length bytes ≡ n
    → (read_exact io n >>= f) (record { input = bytes ++ rest; output = out; writes = k })
      ≡ f bytes (record { input = rest; output = out; writes = k })
read_then n f bytes rest out k h =
    ap (λ r. continue r.0 f r.1) (read_exact-append n bytes rest out k h)

accepts :
    (methods rest out : List ℕ) (k : ℕ)
    → contains_zero methods ≡ true
    → Ran
        (check_methods methods (record { input = rest; output = out; writes = suc k }))
        tt
        rest
        (out ++ (0x05 ∷ 0x00 ∷ []))
        k
unfolding check_methods write_all write_on
accepts methods rest out k h = rw h refl

negotiate-accepts :
    (methods rest out : List ℕ) (k : ℕ)
    → contains_zero methods ≡ true
    → Ran
        (negotiate (record {
          input = 0x05 ∷ length methods ∷ (methods ++ rest);
          output = out;
          writes = suc k;
        }))
        tt
        rest
        (out ++ (0x05 ∷ 0x00 ∷ []))
        k
unfolding negotiate
negotiate-accepts methods rest out k h =
    read_then 2
      (λ head.
        if not (byte_at head 0 == 0x05)
        then raise (bad_version (byte_at head 0))
        else (read_exact io (byte_at head 1) >>= check_methods))
      (0x05 ∷ length methods ∷ []) (methods ++ rest) out (suc k) refl
    ∙ read_then (length methods) check_methods methods rest out (suc k) refl
    ∙ accepts methods rest out k h

-- the address type of a request's target, and its bytes
abbrev pub type_of : Host → ℕ
type_of (ip (v4 octets)) = 0x01
type_of (ip (v6 octets)) = 0x04
type_of (domain name) = 0x03

abbrev pub address_of : Host → List ℕ
address_of (ip (v4 octets)) = octets
address_of (ip (v6 octets)) = octets
address_of (domain name) = length name ∷ name

-- a host that a request can carry, and that reads back as itself
abbrev pub IsHost : (List ℕ → Option IpAddr) → Host → Type 0
IsHost parse_ip (ip a) = IsIp a
IsHost parse_ip (domain name) = (length name < 256) × (is_utf8 name ≡ true) × (parse_ip name ≡ none)

module _ (parse_ip : List ℕ → Option IpAddr) (port : ℕ) (h : port < 2 ^ 16) (out rest : List ℕ)
    (k : ℕ) where
  -- the stream with these bytes before the rest
  abbrev ahead : List ℕ → Client
  ahead bytes = record { input = bytes ++ (to_be16 port ++ rest); output = out; writes = k }

  abbrev TargetAt : Host → Result Error Target × Client → Type 0
  TargetAt a r =
      r ≡ (ok (record { host = a; port = port }), record { input = rest; output = out; writes = k })

  port_last :
      (a : Host)
      → TargetAt a (
          (read_exact io 2 >>= λ bytes.
          pure {E = Error} (record { host = a; port = port_of bytes }))
            (ahead []))
  port_last a =
      read_then 2 (λ bytes. pure (record { host = a; port = port_of bytes })) (to_be16 port) rest
        out k refl
      ∙ rw (from_be16-to_be16 port h) refl

  v4_back :
      (octets : List ℕ) → length octets ≡ 4 → TargetAt (ip (v4 octets)) (read_v4 (ahead octets))
  unfolding read_v4
  v4_back octets four =
      read_then 4
        (λ addr. do
          bytes ← read_exact io 2
          pure (record { host = ip (v4 addr); port = port_of bytes }))
        octets (to_be16 port ++ rest) out k four
      ∙ port_last (ip (v4 octets))

  v6_back :
      (octets : List ℕ) → length octets ≡ 16 → TargetAt (ip (v6 octets)) (read_v6 (ahead octets))
  unfolding read_v6
  v6_back octets sixteen =
      read_then 16
        (λ addr. do
          bytes ← read_exact io 2
          pure (record { host = ip (v6 addr); port = port_of bytes }))
        octets (to_be16 port ++ rest) out k sixteen
      ∙ port_last (ip (v6 octets))

  name_back :
      (name : List ℕ)
      → IsHost parse_ip (domain name)
      → TargetAt (domain name) (read_name parse_ip (ahead (length name ∷ name)))
  unfolding read_name Host_parse
  name_back name (short, text, no_ip) =
      read_then 1
        (λ len. do
          bytes ← read_exact io (byte_at len 0)
          port_bytes ← read_exact io 2
          finished bytes port_bytes)
        (length name ∷ []) (name ++ (to_be16 port ++ rest)) out k refl
      ∙ read_then (length name)
          (λ bytes. do port_bytes ← read_exact io 2; finished bytes port_bytes) name
          (to_be16 port ++ rest) out k refl
      ∙ read_then 2 (λ port_bytes. finished name port_bytes) (to_be16 port) rest out k refl
      ∙ rw (text, no_ip, from_be16-to_be16 port h, Host_parse) refl
    where
      finished : List ℕ → List ℕ → Exec Client Error Target
      finished bytes port_bytes =
          if is_utf8 bytes
          then pure (record { host = Host_parse parse_ip bytes; port = port_of port_bytes })
          else raise name_not_utf8

  target_back :
      (a : Host)
      → IsHost parse_ip a
      → TargetAt a (read_target parse_ip (type_of a) (ahead (address_of a)))
  unfolding read_target
  target_back (ip (v4 octets)) four = v4_back octets four
  target_back (ip (v6 octets)) sixteen = v6_back octets sixteen
  target_back (domain name) good = name_back name good

  command_back :
      (a : Host)
      → IsHost parse_ip a
      → command parse_ip (0x05 ∷ 0x01 ∷ 0x00 ∷ type_of a ∷ []) (ahead (address_of a)) ≡ (
        ok (connect (record { host = a; port = port })),
        record { input = rest; output = out; writes = k },
      )
  unfolding command connect_request
  command_back (ip (v4 octets)) good =
      ap (λ r. connect_request r.0 r.1) (target_back (ip (v4 octets)) good)
  command_back (ip (v6 octets)) good =
      ap (λ r. connect_request r.0 r.1) (target_back (ip (v6 octets)) good)
  command_back (domain name) good =
      ap (λ r. connect_request r.0 r.1) (target_back (domain name) good)

  request_back :
      (a : Host)
      → IsHost parse_ip a
      → (read_exact io 4 >>= command parse_ip)
          (ahead (0x05 ∷ 0x01 ∷ 0x00 ∷ type_of a ∷ address_of a))
        ≡ (
          ok (connect (record { host = a; port = port })),
          record { input = rest; output = out; writes = k },
        )
  request_back a good =
      read_then 4 (command parse_ip) (0x05 ∷ 0x01 ∷ 0x00 ∷ type_of a ∷ [])
        (address_of a ++ (to_be16 port ++ rest)) out k refl
      ∙ command_back a good

-- what a client sends to open a tunnel: its methods, and a CONNECT request
abbrev pub client_bytes : List ℕ → Host → ℕ → List ℕ → List ℕ
client_bytes methods a port rest =
    0x05
    ∷ length methods
    ∷ (methods ++ (0x05 ∷ 0x01 ∷ 0x00 ∷ type_of a ∷ (address_of a ++ (to_be16 port ++ rest))))

-- A client that offers the method without authentication and asks for a CONNECT to an address or a
-- name (at most 255 bytes of UTF-8 that are no IP address) is understood: the request is its target,
-- exactly the handshake is consumed, so what it sent early stays for the tunnel, and it has been
-- sent the choice of the method and nothing else, when that write does not fail.
pub read_request-client_bytes :
    (parse_ip : List ℕ → Option IpAddr) (methods rest out : List ℕ) (k : ℕ) (a : Host) (port : ℕ)
    → contains_zero methods ≡ true
    → IsHost parse_ip a
    → port < 2 ^ 16
    → read_request parse_ip
        (record { input = client_bytes methods a port rest; output = out; writes = suc k })
      ≡ (
        ok (connect (record { host = a; port = port })),
        record { input = rest; output = out ++ (0x05 ∷ 0x00 ∷ []); writes = k },
      )
unfolding read_request
read_request-client_bytes parse_ip methods rest out k a port offered good h =
    ap (λ r. continue r.0 (λ _. read_exact io 4 >>= command parse_ip) r.1)
      (negotiate-accepts methods
        (0x05 ∷ 0x01 ∷ 0x00 ∷ type_of a ∷ (address_of a ++ (to_be16 port ++ rest))) out k offered)
    ∙ request_back parse_ip port h (out ++ (0x05 ∷ 0x00 ∷ [])) rest k a good
