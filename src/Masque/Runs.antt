-- ===== src/Masque/Runs.antt =====
-- Frames on a CONNECT stream with the integers of RFC 9000.
use warp_socks.Prelude.{
  ◌++◌, ℕ, ◌<◌, ◌^◌, ◌≡◌, refl, List, [], ◌∷◌, Option, some, true, false, length, arith,
}
use warp_socks.Prelude.Exec.{Result, ok, err, Exec}
use warp_socks.Net.{IpAddr, SocketAddr}
use warp_socks.VarInt.Quic.{quic, quic-IsPrefixed}
use warp_socks.Qpack.{encode_connect_request, encode_string, encode_integer}
use warp_socks.Dns.{RecordType, a, aaaa}
use warp_socks.Doh.{DnsCache, cached}
use warp_socks.Masque.Lookup.{IsLookedUp, resolve_domain-queries}
use warp_socks.Masque.{
  doh_addrs, resolve_domain, Recv, at_end, drain_download, drain_upload, ended, exchange,
  max_skipped_frames, ordered_ports, Error,
}
use warp_socks.Masque.Answer.{exchange-frames, IsOutcome, first_headers}
use warp_socks.Masque.Frames.{
  Frame, after, deliver_all, drain_download-drain_upload, drain_download-frames, frame_bytes,
  joined, stream_bytes,
}

-- a reserved frame between two DATA frames
abbrev frames : List Frame
frames = (0, 1 ∷ 2 ∷ []) ∷ (33, 9 ∷ []) ∷ (0, 3 ∷ []) ∷ []

abbrev single : ℕ → ℕ
single n = 1

abbrev stream : Recv
stream = record { arriving = stream_bytes quic frames; is_reset = true }

drain_download-frames_example :
    drain_download quic single stream ≡ (at_end stream tt, deliver_all frames [])
drain_download-frames_example =
    drain_download-frames quic quic-IsPrefixed single stream frames
      ((omega arith, omega arith), ((omega arith, omega arith), ((omega arith, omega arith), tt)))
      refl

delivered : deliver_all frames [] ≡ 1 ∷ 2 ∷ 3 ∷ []
unfolding deliver_all
delivered = refl

abbrev chunks : List (List ℕ)
chunks = (1 ∷ 2 ∷ []) ∷ (3 ∷ []) ∷ []

drain_download-drain_upload_example :
    (sent : List ℕ) × (drain_upload quic chunks ≡ some sent)
    × (drain_download quic single (record { arriving = sent; is_reset = false })
        ≡ (ok tt, joined chunks))
drain_download-drain_upload_example =
    drain_download-drain_upload quic single chunks quic-IsPrefixed
      ((omega arith, omega arith), ((omega arith, omega arith), tt))

abbrev answer : List Frame
answer = (33, 9 ∷ []) ∷ (1, 0 ∷ 0 ∷ 0xd9 ∷ []) ∷ []

abbrev quiet : Recv
quiet = record { arriving = []; is_reset = false }

short : length (encode_connect_request (b'a' ∷ []) (b't' ∷ [])) < 2 ^ 62
unfolding encode_connect_request encode_string encode_integer
short = omega arith

last_port : ordered_ports (443 ∷ 500 ∷ 1701 ∷ []) ≡ 500 ∷ 1701 ∷ 443 ∷ []
unfolding ordered_ports
last_port = refl

exchange-frames_example :
    (outcome : Result Error (Option (List ℕ))) × (exchange quic true
        (b'a' ∷ [])
        (b't' ∷ [])
        (after quic quiet (stream_bytes quic answer))
      ≡ some (frame_bytes quic (1, encode_connect_request (b'a' ∷ []) (b't' ∷ [])), outcome))
    × IsOutcome true (first_headers max_skipped_frames (ended quiet) answer) outcome
exchange-frames_example =
    exchange-frames quic quic-IsPrefixed true (b'a' ∷ []) (b't' ∷ []) quiet answer short
      ((omega arith, omega arith), ((omega arith, omega arith), tt))

abbrev by_record :
    RecordType
    → SocketAddr
    → DnsCache × List RecordType
    → Result ℕ IpAddr × (DnsCache × List RecordType)
by_record a server s = (err 1, s)
by_record aaaa server s = (ok server.ip, s)

-- no A record, and the server's own address as the AAAA record; the types asked are noted
abbrev noting : SocketAddr → List ℕ → RecordType → Exec (DnsCache × List RecordType) ℕ IpAddr
noting server name record_type (cache, asked) =
    by_record record_type server (cache, asked ++ (record_type ∷ []))

resolve_domain-queries_example :
    IsLookedUp noting 0 doh_addrs
      (b'a' ∷ [])
      (cached [] (b'a' ∷ []) 5)
      []
      (resolve_domain noting 0 doh_addrs (b'a' ∷ []) 5 ([], []))
resolve_domain-queries_example = resolve_domain-queries noting 0 doh_addrs (b'a' ∷ []) 5 [] []
