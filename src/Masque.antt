-- ===== src/Masque.antt =====
-- outbound/masque/mod.rs: the frames on a CONNECT stream in both directions, the answer to a CONNECT
-- request, the order of the edge addresses, and the lookup of a name. QUIC and TLS are libraries.
pub mod Frames
pub mod Answer
pub mod Lookup
pub mod Runs
use warp_socks.Prelude.{
  ℕ, zero, suc, ◌+◌, ◌-◌, ◌/◌, ◌^◌, List, [], ◌∷◌, ◌++◌, Option, none, some, Bool, true, false, not,
  if◌then◌else◌, ◌==◌, ltb, leb, length, take, drop, min, max, filter, map, ◌||◌,
}
use warp_socks.Prelude.Exec.{Result, ok, err, Exec}
use warp_socks.Dns.{RecordType, a, aaaa}
use warp_socks.Doh.{DnsCache, cached}
use warp_socks.VarInt.{VarIntCodec, read}
use warp_socks.Qpack
use warp_socks.Qpack.{headers_frame, encode_connect_request, data_frame, decode_headers}
use warp_socks.Net.{IpAddr, v4, SocketAddr, Host, domain, ip}

abbrev pub relay_buf : ℕ
relay_buf = 65536

abbrev pub max_headers_frame_size : ℕ
max_headers_frame_size = 65536

-- `stuck` is no error of the source: a loop of the model ran out of fuel.
pub data Error : Type 0 where
  unexpected_eof read_failed headers_too_large only_other_frames stuck : Error
  bad_headers : Qpack.Error → Error
  refused : ℕ → Error
  write_failed : Error

-- A receiving stream: the bytes that will arrive, and whether it is then reset rather than finished.
pub record Recv : Type 0 where
  pub arriving : List ℕ
  pub is_reset : Bool

-- a read at the end of the stream, which fails or gives no bytes
abbrev pub at_end {ℓ} : {A : Type ℓ} → Recv → A → Result Error A
at_end recv closed = if recv.is_reset then err read_failed else ok closed

-- only DATA frames are passed on
abbrev pub deliver : ℕ → List ℕ → List ℕ → List ℕ
deliver kind out bytes = if kind == 0 then out ++ bytes else out

-- A read of at most `limit` bytes where some have arrived: `pieces n` proposes how many it gives when
-- `n` bytes are still to come.
abbrev pub piece : (ℕ → ℕ) → ℕ → List ℕ → ℕ
piece pieces limit bytes = max 1 (min (pieces (length bytes)) (min limit (length bytes)))

-- the loop over the payload of one frame, and what has been delivered
unfoldable pub payload_loop : ℕ → (ℕ → ℕ) → ℕ → ℕ → Recv → List ℕ → Result Error Recv × List ℕ
payload_loop zero pieces kind remaining recv out = (err stuck, out)
payload_loop (suc fuel) pieces kind remaining recv out =
    let size = piece pieces (min remaining relay_buf) recv.arriving in
    let rest =
      payload_loop fuel pieces kind (remaining - size)
        (record recv { arriving = drop size recv.arriving })
        (deliver kind out (take size recv.arriving)) in
    if remaining == 0
    then (ok recv, out)
    else if length recv.arriving == 0
    then (if recv.is_reset then (err read_failed, out) else (err unexpected_eof, out))
    else rest

-- `read_exact`, with what it fails with at the end of the stream
abbrev pub ended {ℓ} : {A : Type ℓ} → Recv → Result Error A
ended recv = if recv.is_reset then err read_failed else err unexpected_eof

unfoldable pub read_exact : ℕ → Recv → Result Error (List ℕ × Recv)
read_exact n recv =
    if ltb (length recv.arriving) n
    then ended recv
    else ok (take n recv.arriving, record recv { arriving = drop n recv.arriving })

-- What `discard_frame` reads, in steps of at most `relay_buf` bytes, is dropped.
unfoldable pub discard_frame : ℕ → Recv → Result Error Recv
discard_frame n recv = elim (read_exact n recv) [ err e ↦ err e | ok (bytes, rest) ↦ ok rest ]

abbrev pub max_skipped_frames : ℕ
max_skipped_frames = 8

unfoldable pub verdict : Result Error (List ℕ) → Result Error (Option (List ℕ))
verdict (err e) = err e
verdict (ok payload) = elim (decode_headers payload) [
  | err e ↦ err (bad_headers e)
  | ok headers ↦ if headers.status == 200 then ok headers.colo else err (refused headers.status)
]

abbrev pub value_of : Option (ℕ × ℕ) → Option ℕ
value_of none = none
value_of (some (value, n)) = some value

module _ (codec : VarIntCodec) where
  unfoldable pub read_varint_or_eof : Recv → Result Error (Option ℕ × Recv)
  unfolding read
  read_varint_or_eof recv = elim recv.arriving [
    | [] ↦ at_end recv (none, recv)
    | first ∷ more ↦
        let len = 2 ^ (first / 64) in
        if ltb (length more) (len - 1)
        then (if recv.is_reset then err read_failed else err unexpected_eof)
        else ok (
          value_of (read codec (take len (first ∷ more))),
          record recv { arriving = drop len (first ∷ more) },
        )
  ]

  unfoldable pub read_varint : Recv → Result Error (ℕ × Recv)
  read_varint recv = elim (read_varint_or_eof recv) [
    | err e ↦ err e
    | ok (none, rest) ↦ err unexpected_eof
    | ok (some value, rest) ↦ ok (value, rest)
  ]

  -- the frames of the stream, until it ends between two of them
  unfoldable pub download_loop : ℕ → (ℕ → ℕ) → Recv → List ℕ → Result Error (Unit {0}) × List ℕ
  download_loop zero pieces recv out = (err stuck, out)
  download_loop (suc fuel) pieces recv out = elim (read_varint_or_eof recv) [
    | err e ↦ (err e, out)
    | ok (none, rest) ↦ (ok tt, out)
    | ok (some kind, rest) ↦ elim (read_varint rest) [
      | err e ↦ (err e, out)
      | ok (len, body) ↦
          let taken = payload_loop (suc len) pieces kind len body out in
          elim taken.0 [
            | err e ↦ (err e, taken.1)
            | ok after ↦ download_loop fuel pieces after taken.1
          ]
    ]
  ]

  -- Each frame takes a byte of the stream at least. The local side takes what is written to it: an error of
  -- it ends the source's loop.
  unfoldable pub drain_download : (ℕ → ℕ) → Recv → Result Error (Unit {0}) × List ℕ
  drain_download pieces recv = download_loop (suc (length recv.arriving)) pieces recv []

  -- The local side gives chunks of at most `relay_buf` bytes, an empty one at its end; that
  -- a read or a write fails is left out. `none` is the panic of `data_frame`.
  unfoldable pub drain_upload : List (List ℕ) → Option (List ℕ)
  drain_upload [] = some []
  drain_upload (chunk ∷ chunks) =
      let later = drain_upload chunks in
      if length chunk == 0 then some [] else elim (data_frame codec [] chunk) [
        | none ↦ none
        | some frame ↦ elim later [ none ↦ none | some frames ↦ some (frame ++ frames) ]
      ]

  -- the loop that looks for the HEADERS of the response
  unfoldable pub find_headers : ℕ → Recv → Result Error (List ℕ)
  find_headers zero recv = err only_other_frames
  find_headers (suc left) recv = elim (read_varint recv) [
    | err e ↦ err e
    | ok (kind, r) ↦ elim (read_varint r) [
      | err e ↦ err e
      | ok (len, body) ↦
          if kind == 0x01
          then (if ltb max_headers_frame_size len
              then err headers_too_large
              else elim (read_exact len body) [ err e ↦ err e | ok (payload, rest) ↦ ok payload ])
          else elim (discard_frame len body) [ err e ↦ err e | ok rest ↦ find_headers left rest ]
    ]
  ]

  -- The request that is written, and the answer; `written` says whether the writing succeeds, and
  -- `none` is the panic of `headers_frame`.
  unfoldable pub exchange :
      Bool → List ℕ → List ℕ → Recv → Option (List ℕ × Result Error (Option (List ℕ)))
  exchange written authority token recv =
      elim (headers_frame codec (encode_connect_request authority token)) [
        | none ↦ none
        | some frame ↦ some (
          frame,
          if written then verdict (find_headers max_skipped_frames recv) else err write_failed,
        )
      ]

-- the ports of the registration, with 443 at the end
unfoldable pub ordered_ports : List ℕ → List ℕ
ordered_ports ports =
    let listed = if length ports == 0 then 443 ∷ [] else ports in
    let others = filter (λ p. not (p == 443)) listed in
    if length (filter (λ p. p == 443) listed) == 0 then others else others ++ (443 ∷ [])

abbrev pub at_ports : Option IpAddr → List ℕ → List SocketAddr
at_ports none ports = []
at_ports (some i) ports = map (λ p. record { ip = i; port = p }) ports

-- the two addresses of the endpoint, where they parse, with each port
unfoldable pub edge_addrs : (List ℕ → Option IpAddr) → List ℕ → List ℕ → List ℕ → List SocketAddr
edge_addrs parse_ip endpoint_v4 endpoint_v6 endpoint_ports =
    at_ports (parse_ip endpoint_v4) (ordered_ports endpoint_ports)
    ++ at_ports (parse_ip endpoint_v6) (ordered_ports endpoint_ports)

-- Attempts in order, until one succeeds; `last` is the error when there is none.
abbrev pub after_attempt {ℓ κ μ} :
    {S : Type ℓ} {E : Type κ} {A : Type μ} → Result E A × S → (E → Exec S E A) → Result E A × S
after_attempt (ok x, s) rest = (ok x, s)
after_attempt (err e, s) rest = rest e s

unfoldable pub first_ok {ℓ κ μ} :
    {S : Type ℓ} {E : Type κ} {A : Type μ} → List (Exec S E A) → E → Exec S E A
first_ok [] last s = (err last, s)
first_ok (m ∷ ms) last s = after_attempt (m s) (first_ok ms)

-- A lookup through the tunnel: `via` is `doh_query_via`, over the cache and the rest of the state.
module _ {ℓ κ} {W : Type ℓ} {E : Type κ}
    (via : SocketAddr → List ℕ → RecordType → Exec (DnsCache × W) E IpAddr) (no_candidate : E) where
  unfoldable pub doh_query : List SocketAddr → List ℕ → RecordType → Exec (DnsCache × W) E IpAddr
  unfolding first_ok
  doh_query servers name record_type =
      first_ok (map (λ server. via server name record_type) servers) no_candidate

  unfoldable pub lookup_both : List SocketAddr → List ℕ → Exec (DnsCache × W) E IpAddr
  unfolding doh_query
  lookup_both servers name =
      first_ok (doh_query servers name a ∷ doh_query servers name aaaa ∷ []) no_candidate

  -- `now` is the instant at which the cache is read
  unfoldable pub resolve_domain : List SocketAddr → List ℕ → ℕ → Exec (DnsCache × W) E IpAddr
  unfolding lookup_both
  resolve_domain servers name now (cache, rest) =
      let (found, kept) = cached cache name now in
      elim found [ some i ↦ (ok i, (kept, rest)) | none ↦ lookup_both servers name (kept, rest) ]

-- DOH_ADDRS
abbrev pub doh_addrs : List SocketAddr
doh_addrs =
    record { ip = v4 (162 ∷ 159 ∷ 36 ∷ 1 ∷ []); port = 443 }
    ∷ record { ip = v4 (162 ∷ 159 ∷ 46 ∷ 1 ∷ []); port = 443 }
    ∷ []

-- What a connection of a request fails with: the lookup, the stream, or the whole budget.
pub data ConnectError {κ} (E : Type κ) : Type κ where
  lookup_failed stream_failed : E → ConnectError E
  budget_spent : ConnectError E

module _ {ℓ κ μ} {W : Type ℓ} {E : Type κ} {T : Type μ}
    (via : SocketAddr → List ℕ → RecordType → Exec (DnsCache × W) E IpAddr) (no_candidate : E)
    (connect_stream : SocketAddr → Exec (DnsCache × W) E T) where
  unfoldable pub stream_to :
      ℕ → Result E IpAddr × (DnsCache × W) → Result (ConnectError E) T × (DnsCache × W)
  stream_to port (err e, s) = (err (lookup_failed e), s)
  stream_to port (ok i, s) =
      let result = connect_stream (record { ip = i; port = port }) s in
      elim result.0 [
        | ok stream ↦ (ok stream, result.1)
        | err e ↦ (err (stream_failed e), result.1)
      ]

  -- `spent`: the budget of the request passes first
  unfoldable pub connect_tcp : Bool → Host → ℕ → ℕ → Exec (DnsCache × W) (ConnectError E) T
  unfolding resolve_domain stream_to
  connect_tcp true host port now s = (err budget_spent, s)
  connect_tcp false (ip i) port now s = stream_to port (ok i, s)
  connect_tcp false (domain name) port now s =
      stream_to port (resolve_domain via no_candidate doh_addrs name now s)
