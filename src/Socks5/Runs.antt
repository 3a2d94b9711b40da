-- ===== src/Socks5/Runs.antt =====
-- Runs of the SOCKS5 handshake, and its theorems at concrete inputs.
use warp_socks.Prelude.{
  ℕ, List, [], ◌∷◌, ◌++◌, ◌≡◌, refl, Option, none, some, true, suc, arith, length,
}
use warp_socks.Prelude.Exec.{ok, err}
use warp_socks.Net.{IpAddr, v4, Host, ip, Client}
use warp_socks.Net.{SocketAddr}
use warp_socks.Socks5.Association.{
  Association, Event, datagram, reply, control_byte, worker_takes, frees, find, receiving_routes,
  udp_source_allowed, relay_datagram,
}
use warp_socks.Socks5.Association.Invariant.{queued_bytes}
use warp_socks.Socks5.Association.Client.{
  IsAssociation, Whenever, run, sent, IsForOne, run-IsAssociation, sent-IsForOne,
}
use warp_socks.Socks5.Association.Delivery.{IsQueued, relay_datagram-IsQueued}
use warp_socks.Net.Talk.{Talks}
use warp_socks.Socks5.Answers.{Answered, handle_client-Answered}
use warp_socks.Socks5.RoundTrip.{client_bytes, read_request-client_bytes}
use warp_socks.Socks5.Udp.{addr, decode_udp_header, encode_udp_header}
use warp_socks.Socks5.Udp.Header.{decode_udp_header-encode_udp_header}
use warp_socks.Socks5.{
  contains_zero, connect, read_request, handle_client, reply_bytes, unsupported_command,
}

no_ip : List ℕ → Option IpAddr
no_ip s = none

abbrev talking : List ℕ → Client
talking input = record { input = input; output = []; writes = 9 }

connect_v4 :
    read_request no_ip (talking (5 ∷ 1 ∷ 0 ∷ 5 ∷ 1 ∷ 0 ∷ 1 ∷ 1 ∷ 2 ∷ 3 ∷ 4 ∷ 0 ∷ 80 ∷ 77 ∷ [])) ≡ (
      ok (connect (record { host = ip (v4 (1 ∷ 2 ∷ 3 ∷ 4 ∷ [])); port = 80 })),
      record { input = 77 ∷ []; output = 5 ∷ 0 ∷ []; writes = 8 },
    )
unfolding read_request
connect_v4 = refl

bind_refused :
    read_request no_ip (talking (5 ∷ 1 ∷ 0 ∷ 5 ∷ 2 ∷ 0 ∷ 1 ∷ 1 ∷ 2 ∷ 3 ∷ 4 ∷ 0 ∷ 80 ∷ 77 ∷ [])) ≡ (
      err (unsupported_command 2),
      record {
        input = 1 ∷ 2 ∷ 3 ∷ 4 ∷ 0 ∷ 80 ∷ 77 ∷ [];
        output = 5 ∷ 0 ∷ reply_bytes 7;
        writes = 7;
      },
    )
unfolding read_request
bind_refused = refl

abbrev target : Host
target = ip (v4 (1 ∷ 2 ∷ 3 ∷ 4 ∷ []))

offered : contains_zero (2 ∷ 0 ∷ []) ≡ true
unfolding contains_zero
offered = refl

read_request-client_bytes_example :
    read_request no_ip (record {
      input = client_bytes (2 ∷ 0 ∷ []) target 443 (77 ∷ []);
      output = [];
      writes = suc 3;
    })
    ≡ (
      ok (connect (record { host = target; port = 443 })),
      record { input = 77 ∷ []; output = [] ++ (0x05 ∷ 0x00 ∷ []); writes = 3 },
    )
read_request-client_bytes_example =
    read_request-client_bytes no_ip (2 ∷ 0 ∷ []) (77 ∷ []) [] 3 target 443 offered refl
      (omega arith)

abbrev dial : Host → ℕ → Option ℕ
dial host port = some port

handle_client-Answered_example :
    Talks (Answered dial none) (talking (5 ∷ 1 ∷ 0 ∷ 5 ∷ 1 ∷ 0 ∷ 1 ∷ 1 ∷ 2 ∷ 3 ∷ 4 ∷ 0 ∷ 80 ∷ [])) (
      handle_client dial no_ip true none
        (talking (5 ∷ 1 ∷ 0 ∷ 5 ∷ 1 ∷ 0 ∷ 1 ∷ 1 ∷ 2 ∷ 3 ∷ 4 ∷ 0 ∷ 80 ∷ [])))
handle_client-Answered_example =
    handle_client-Answered dial none no_ip true
      (talking (5 ∷ 1 ∷ 0 ∷ 5 ∷ 1 ∷ 0 ∷ 1 ∷ 1 ∷ 2 ∷ 3 ∷ 4 ∷ 0 ∷ 80 ∷ []))

abbrev relayed : SocketAddr
relayed = record { ip = v4 (9 ∷ 9 ∷ 9 ∷ 9 ∷ []); port = 53 }

decode_udp_header-encode_udp_header_example :
    decode_udp_header (encode_udp_header relayed ++ (1 ∷ 2 ∷ []))
    ≡ some (addr relayed, length (encode_udp_header relayed))
decode_udp_header-encode_udp_header_example =
    decode_udp_header-encode_udp_header relayed (1 ∷ 2 ∷ []) refl (omega arith)

abbrev relayed_bytes : List ℕ
relayed_bytes = encode_udp_header relayed ++ (1 ∷ 2 ∷ [])

abbrev local : ℕ → SocketAddr
local port = record { ip = v4 (127 ∷ 0 ∷ 0 ∷ 1 ∷ []); port = port }

abbrev dns_server : SocketAddr
dns_server = record { ip = v4 (1 ∷ 1 ∷ 1 ∷ 1 ∷ []); port = 53 }

abbrev new_association : Association
new_association = record {
  peer = local 5000;
  client_addr = none;
  egress = record { routes = []; workers = 2; budget = 100; held = 0 };
}

abbrev asked : List Event
asked =
    datagram (local 5001) (encode_udp_header dns_server ++ (7 ∷ 7 ∷ []))
    ∷ worker_takes (addr dns_server)
    ∷ control_byte
    ∷ frees 2
    ∷ reply dns_server (8 ∷ [])
    ∷ []

new_association_lem : IsAssociation 100 new_association
unfolding queued_bytes
new_association_lem = record {
  relays = record { few = omega arith; bounded = tt; conserved = refl };
  known = tt;
}

run-IsAssociation_example : Whenever (IsAssociation 100) (run asked new_association)
run-IsAssociation_example = run-IsAssociation asked new_association new_association_lem

sent-IsForOne_example : IsForOne (local 5000) (sent asked new_association)
sent-IsForOne_example = sent-IsForOne asked new_association new_association_lem

relay_datagram-IsQueued_example :
    IsQueued
      (addr dns_server)
      (7 ∷ 7 ∷ [])
      (relay_datagram
        (local 5001)
        (encode_udp_header dns_server ++ (7 ∷ 7 ∷ []))
        new_association).egress
unfolding find receiving_routes udp_source_allowed
relay_datagram-IsQueued_example =
    relay_datagram-IsQueued (local 5001) dns_server (7 ∷ 7 ∷ []) new_association refl (omega arith)
      refl (omega arith, omega arith) (omega arith)
