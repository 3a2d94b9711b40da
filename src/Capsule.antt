-- ===== src/Capsule.antt =====
-- outbound/masque/h2.rs: the capsules that carry IP packets over HTTP/2. The integer codec is that of
-- varint.rs; the capacities that the stream offers, and the room in the queue of received packets,
-- are arguments.
pub mod Chunks
mod Runs
use warp_socks.Prelude.{
  ℕ, zero, suc, ◌+◌, ◌-◌, ◌*◌, ◌/◌, List, [], ◌∷◌, ◌++◌, Option, none, some, Bool, true, false, not,
  ◌||◌, length, take, drop, ltb, ◌==◌, if◌then◌else◌, min,
}
use warp_socks.Prelude.Exec.{Result, ok, err}
use warp_socks.VarInt.{VarIntCodec, write, read}

pub data Error : Type 0 where
  packet_too_long write_failed buffer_full capsule_too_long stream_closed stuck : Error

abbrev pub packet_mtu : ℕ
packet_mtu = 1280

abbrev pub max_capsule_buffer : ℕ
max_capsule_buffer = 256 * 1024

-- `start_send` of the device, over the outcome of the channel
pub start_send : List ℕ → Bool → Result Error (Unit {0})
start_send item accepted =
    if ltb packet_mtu (length item)
    then err packet_too_long
    else if accepted
    then ok tt
    else err write_failed

pub capsule : VarIntCodec → List ℕ → Result Error (List ℕ)
capsule codec packet =
    if ltb packet_mtu (length packet)
    then err packet_too_long
    else elim (write codec (0 ∷ []) (length packet)) [
      | none ↦ err write_failed
      | some head ↦ ok (head ++ packet)
    ]

-- The inner loop of `send_packets`: a capsule is cut by the capacities that the stream offers. The
-- chunks that were sent, and what remains when no more capacity is offered.
pub send_chunks : List ℕ → List ℕ → List (List ℕ) × List ℕ
send_chunks [] remaining = ([], remaining)
send_chunks (available ∷ more) [] = ([], [])
send_chunks (available ∷ more) (b ∷ bs) =
    let n = min available (length (b ∷ bs)) in
    let (chunks, left) = send_chunks more (drop n (b ∷ bs)) in
    if available == 0 then send_chunks more (b ∷ bs) else (take n (b ∷ bs) ∷ chunks, left)

-- the queue of packets to the reactor: what it holds, its free places, and whether it is open
pub record Queue : Type 0 where
  pub held : List (List ℕ)
  pub free : ℕ
  pub receiving : Bool

pub data Delivery : Type 0 where
  delivered dropped closed : Delivery

-- `try_send`
pub try_send : List ℕ → Queue → Delivery × Queue
try_send packet q =
    if not q.receiving
    then (closed, q)
    else if q.free == 0
    then (dropped, q)
    else (delivered, record q { held = q.held ++ (packet ∷ []); free = q.free - 1 })

-- the context id in front of a packet, if it is there
pub without_context : List ℕ → List ℕ
without_context [] = []
without_context (b ∷ []) = b ∷ []
without_context (b ∷ c ∷ cs) = if b == 0 then c ∷ cs else b ∷ c ∷ cs

-- an IPv4 or IPv6 packet, by the version in its first byte
pub is_ip : List ℕ → Bool
is_ip [] = false
is_ip (b ∷ bs) = b / 16 == 4 || b / 16 == 6

-- a whole capsule: only datagrams that are IP packets are passed on
pub receive_capsule : ℕ → List ℕ → Queue → Delivery × Queue
receive_capsule kind payload q =
    if kind == 0
    then (if is_ip (without_context payload)
        then try_send (without_context payload) q
        else (dropped, q))
    else (dropped, q)

-- what is left of the buffer, or that the reader has gone
pub data Drained : Type 0 where
  keep : List ℕ → Drained
  reader_gone : Drained

-- The inner loop of `receive_packets`: whole capsules are taken from the front of the buffer.
pub drain_capsules : VarIntCodec → ℕ → List ℕ → Queue → Result Error Drained × Queue
drain_capsules codec zero buf q = (err stuck, q)
drain_capsules codec (suc fuel) buf q = elim (read codec buf) [
  | none ↦ (ok (keep buf), q)
  | some (kind, kind_len) ↦ elim (read codec (drop kind_len buf)) [
    | none ↦ (ok (keep buf), q)
    | some (len, length_len) ↦
        let header = kind_len + length_len in
        let (delivery, q') = receive_capsule kind (take len (drop header buf)) q in
        let rest = drain_capsules codec fuel (drop (header + len) buf) q' in
        if ltb max_capsule_buffer len
        then (err capsule_too_long, q)
        else if ltb (length buf) (header + len)
        then (ok (keep buf), q)
        else elim delivery [ closed ↦ (ok reader_gone, q') | delivered ↦ rest | dropped ↦ rest ]
  ]
]

-- `receive_packets`, over the chunks of the stream: it ends well only when the reader has gone
pub receive_packets : VarIntCodec → List (List ℕ) → List ℕ → Queue → Result Error (Unit {0}) × Queue
receive_packets codec [] buf q = (err stream_closed, q)
receive_packets codec (chunk ∷ chunks) buf q =
    if ltb max_capsule_buffer (length buf + length chunk)
    then (err buffer_full, q)
    else (let (result, q') = drain_capsules codec (suc (length (buf ++ chunk))) (buf ++ chunk) q in
        elim result [
          | err e ↦ (err e, q')
          | ok reader_gone ↦ (ok tt, q')
          | ok (keep left) ↦ receive_packets codec chunks left q'
        ])
