-- ===== src/Masque/Answer.antt =====
-- The answer to a CONNECT request, among the frames of the stream.
use mathlib.Core.List.{append_assoc}
use warp_socks.Prelude.{
  ap, ◌∙◌, ◌≢◌, ◌⊎◌, Bool, Option, ==→eq, ==→ne, ℕ, zero, suc, ◌^◌, ◌<◌, ◌≡◌, refl, List, [], ◌∷◌,
  ◌++◌, some, true, false, if◌then◌else◌, ◌==◌, ltb, length, length-append, take-append_length,
  drop-append_length, All, arith, inl, inr, Bool-cases,
}
use warp_socks.Prelude.Exec.{Result, ok, err, Result-cases}
use warp_socks.VarInt.{VarIntCodec, IsPrefixed}
use warp_socks.Qpack
use warp_socks.Qpack.{encode_connect_request, decode_headers}
use warp_socks.Qpack.Frames.{headers_frame_bytes}
use warp_socks.Masque.{
  Error, bad_headers, refused, write_failed, Recv, exchange, max_skipped_frames, discard_frame,
  ended, find_headers, headers_too_large, max_headers_frame_size, only_other_frames, read_exact,
  read_varint, read_varint_or_eof, verdict,
}
use warp_socks.Masque.Frames.{Frame, IsFrame, after, frame_bytes, read_varint-encode, stream_bytes}

-- The first HEADERS frame among at most so many frames, or what is wrong.
abbrev pub first_headers : ℕ → Result Error (List ℕ) → List Frame → Result Error (List ℕ)
first_headers zero end fs = err only_other_frames
first_headers (suc left) end [] = end
first_headers (suc left) end ((kind, payload) ∷ fs) =
    if kind == 1
    then (if ltb max_headers_frame_size (length payload) then err headers_too_large else ok payload)
    else first_headers left end fs

-- What the payload of a HEADERS frame must read as for an outcome: status 200 for an open tunnel, with
-- the colo that is passed on; another status, or no section at all, for an error.
abbrev pub ReadsAs : List ℕ → Result Error (Option (List ℕ)) → Type 0
ReadsAs payload (ok colo) = decode_headers payload ≡ ok (record { status = 200; colo = colo })
ReadsAs payload (err e) =
    ((status : ℕ) × (colo : Option (List ℕ)) × (decode_headers payload
        ≡ ok (record { status = status; colo = colo }))
      × (status ≢ 200)
      × (e ≡ refused status))
    ⊎ ((q : Qpack.Error) × (decode_headers payload ≡ err q) × (e ≡ bad_headers q))

-- The outcome of an exchange, by whether the request was written and what was found in the answer.
abbrev pub IsOutcome : Bool → Result Error (List ℕ) → Result Error (Option (List ℕ)) → Type 0
IsOutcome false found outcome = outcome ≡ err write_failed
IsOutcome true (err e) outcome = outcome ≡ err e
IsOutcome true (ok payload) outcome = ReadsAs payload outcome

verdict-ReadsAs : (payload : List ℕ) → ReadsAs payload (verdict (ok payload))
unfolding verdict
verdict-ReadsAs payload = elim (Result-cases (decode_headers payload)) [
  | inr (q, bad) ↦ rw (bad, verdict) (inr (q, bad, refl))
  | inl (headers, read) ↦ elim (Bool-cases (headers.status == 200)) [
    | inl opens ↦
        let status = ==→eq headers.status 200 opens in
        rw (read, verdict, opens)
          (read ∙ ap (λ s. ok (record { status = s; colo = headers.colo })) status)
    | inr other ↦
        rw (read, verdict, other)
          (inl (headers.status, headers.colo, read, ==→ne headers.status 200 other, refl))
  ]
]

verdict-IsOutcome : (found : Result Error (List ℕ)) → IsOutcome true found (verdict found)
unfolding verdict
verdict-IsOutcome (err e) = refl
verdict-IsOutcome (ok payload) = verdict-ReadsAs payload

module _ (codec : VarIntCodec) (law : IsPrefixed codec) where
  read_exact-append :
      (recv : Recv) (bytes rest : List ℕ)
      → read_exact (length bytes) (after codec recv (bytes ++ rest))
        ≡ ok (bytes, after codec recv rest)
  unfolding read_exact
  read_exact-append recv bytes rest =
      let there : ltb (length (bytes ++ rest)) (length bytes) ≡ false =
        ground (arith, length-append bytes rest) in
      rw (there, take-append_length bytes rest, drop-append_length bytes rest) refl

  discard_frame-append :
      (recv : Recv) (bytes rest : List ℕ)
      → discard_frame (length bytes) (after codec recv (bytes ++ rest)) ≡ ok (after codec recv rest)
  unfolding discard_frame
  discard_frame-append recv bytes rest = rw (read_exact-append recv bytes rest, discard_frame) refl

  read_varint-end : (recv : Recv) → read_varint codec (after codec recv []) ≡ ended recv
  unfolding read_varint read_varint_or_eof
  read_varint-end recv = elim (Bool-cases recv.is_reset) [
    | inl cut ↦ rw cut refl
    | inr finished ↦ rw finished refl
  ]

  find_headers-end :
      (left : ℕ) (recv : Recv) → find_headers codec (suc left) (after codec recv []) ≡ ended recv
  unfolding find_headers
  find_headers-end left recv = elim (Bool-cases recv.is_reset) [
    | inl cut ↦ rw (read_varint-end recv, find_headers, cut) refl
    | inr finished ↦ rw (read_varint-end recv, find_headers, finished) refl
  ]

  -- For a stream of frames, the search for the HEADERS of the answer comes to the first of the frames
  -- of that type: its payload if it is at most 64 KiB, else a refusal; a refusal when as many frames of
  -- other types came first as may be skipped; and the stream's own end or reset when it comes before.
  pub find_headers-first_headers :
      (left : ℕ) (recv : Recv) (fs : List Frame)
      → All IsFrame fs
      → find_headers codec left (after codec recv (stream_bytes codec fs))
        ≡ first_headers left (ended recv) fs
  unfolding find_headers stream_bytes frame_bytes
  find_headers-first_headers zero recv fs good = refl
  find_headers-first_headers (suc left) recv [] good = find_headers-end left recv
  find_headers-first_headers (suc left) recv ((kind, payload) ∷ fs) ((hk, hl), good) =
      let rest = stream_bytes codec fs in
      let len = length payload in
      let heads =
        read_varint-encode codec law recv kind (codec.encode len ++ (payload ++ rest)) hk in
      let sizes = read_varint-encode codec law recv len (payload ++ rest) hl in
      rw
        (
          append_assoc (codec.encode kind) (codec.encode len ++ payload) rest,
          append_assoc (codec.encode len) payload rest,
          heads,
          find_headers,
          sizes,
        )
        (elim (Bool-cases (kind == 1)) [
          | inl headers ↦ elim (Bool-cases (ltb max_headers_frame_size len)) [
            | inl large ↦ rw (headers, large) refl
            | inr small ↦ rw (headers, small, read_exact-append recv payload rest) refl
          ]
          | inr other ↦
              rw (other, discard_frame-append recv payload rest)
                (find_headers-first_headers left recv fs good)
        ])

  -- The request of a CONNECT exchange, of less than 2^62 bytes, is written as one HEADERS frame. If
  -- the writing fails, that is the error. Otherwise, for an answer of whole frames, the first HEADERS
  -- frame decides: the tunnel opens, with the colo that the edge names, when and only when its
  -- payload reads as a header section with status 200. The errors are any other status, a section
  -- that does not read, a frame above 64 KiB, eight frames of other types before it, and a stream
  -- that ends or is reset before it.
  pub exchange-frames :
      (written : Bool) (authority token : List ℕ) (recv : Recv) (fs : List Frame)
      → length (encode_connect_request authority token) < 2 ^ 62
      → All IsFrame fs
      → (outcome : Result Error (Option (List ℕ))) × (exchange codec written authority token
            (after codec recv (stream_bytes codec fs))
          ≡ some (frame_bytes codec (1, encode_connect_request authority token), outcome))
        × IsOutcome written (first_headers max_skipped_frames (ended recv) fs) outcome
  unfolding exchange frame_bytes
  exchange-frames true authority token recv fs short good = (
    verdict (first_headers max_skipped_frames (ended recv) fs),
    rw
        (
          headers_frame_bytes codec (encode_connect_request authority token) short,
          exchange,
          find_headers-first_headers max_skipped_frames recv fs good,
        )
        refl,
    verdict-IsOutcome (first_headers max_skipped_frames (ended recv) fs),
  )
  exchange-frames false authority token recv fs short good = (
    err write_failed,
    rw (headers_frame_bytes codec (encode_connect_request authority token) short, exchange) refl,
    refl,
  )
