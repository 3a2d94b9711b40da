-- ===== src/Masque/Frames.antt =====
-- A stream of frames: what is delivered of it, and that it is what the other side was given.
use mathlib.Core.List.{append_assoc, append-nil}
use native.Mathlib.Nat.{zero-add, suc-add}
use warp_socks.Prelude.{
  ℕ, zero, suc, ◌+◌, ◌-◌, ◌/◌, ◌^◌, ◌<◌, ◌≤◌, ◌≡◌, refl, sym, ap, ◌∙◌, List, [], ◌∷◌, ◌++◌, some,
  false, ◌==◌, ltb, length, length-append, length-drop, take, drop, take-append_length,
  drop-append_length, All, arith, inl, inr, Bool-cases, min,
}
use warp_socks.Prelude.Exec.{ok}
use warp_socks.VarInt.{VarIntCodec, read, HeadsLength, IsPrefixed}
use warp_socks.Qpack.Frames.{data_frame_bytes}
use warp_socks.Masque.{
  Recv, at_end, deliver, download_loop, drain_download, drain_upload, payload_loop, piece,
  read_varint, read_varint_or_eof, value_of, relay_buf,
}

HeadsLength-positive : (bytes : List ℕ) → HeadsLength bytes → 0 < length bytes
HeadsLength-positive [] h = elim h [ ]
HeadsLength-positive (first ∷ more) h = omega arith

module _ {ℓ} {A : Type ℓ} where
  drop_twice : (m n : ℕ) (xs : List A) → drop n (drop m xs) ≡ drop (m + n) xs
  drop_twice zero n xs = rw zero-add refl
  drop_twice (suc m) zero [] = rw suc-add refl
  drop_twice (suc m) (suc n) [] = rw suc-add refl
  drop_twice (suc m) n (x ∷ xs) = rw suc-add (drop_twice m n xs)

  take_twice : (m n : ℕ) (xs : List A) → take m xs ++ take n (drop m xs) ≡ take (m + n) xs
  take_twice zero n xs = rw zero-add refl
  take_twice (suc m) zero [] = rw suc-add refl
  take_twice (suc m) (suc n) [] = rw suc-add refl
  take_twice (suc m) n (x ∷ xs) = rw suc-add (ap (λ l. x ∷ l) (take_twice m n xs))

deliver_twice :
    (kind : ℕ) (out xs ys : List ℕ)
    → deliver kind (deliver kind out xs) ys ≡ deliver kind out (xs ++ ys)
deliver_twice kind out xs ys = elim (Bool-cases (kind == 0)) [
  | inl zeroth ↦ rw zeroth (append_assoc out xs ys)
  | inr other ↦ rw other refl
]

deliver_nothing : (kind : ℕ) (out : List ℕ) → deliver kind out [] ≡ out
deliver_nothing kind out = elim (Bool-cases (kind == 0)) [
  | inl zeroth ↦ rw zeroth (append-nil out)
  | inr other ↦ rw other refl
]

piece_bounds :
    (pieces : ℕ → ℕ) (remaining : ℕ) (bytes : List ℕ)
    → 0 < remaining
    → remaining ≤ length bytes
    → (0 < piece pieces (min remaining relay_buf) bytes)
      × (piece pieces (min remaining relay_buf) bytes ≤ remaining)
piece_bounds pieces remaining bytes some_left enough = (omega arith, omega arith)

-- A payload that has arrived is taken as a whole, in whatever pieces it is read.
payload_loop-whole :
    (fuel : ℕ) (pieces : ℕ → ℕ) (kind remaining : ℕ) (recv : Recv) (out : List ℕ)
    → remaining < fuel
    → remaining ≤ length recv.arriving
    → payload_loop fuel pieces kind remaining recv out ≡ (
      ok (record recv { arriving = drop remaining recv.arriving }),
      deliver kind out (take remaining recv.arriving),
    )
unfolding payload_loop
payload_loop-whole zero pieces kind remaining recv out lt enough = absurd (omega arith)
payload_loop-whole (suc fuel) pieces kind zero recv out lt enough =
    ap (λ o. (ok recv, o)) (sym (deliver_nothing kind out))
payload_loop-whole (suc fuel) pieces kind (suc k) recv out lt enough =
    let size = piece pieces (min (suc k) relay_buf) recv.arriving in
    let (some_read, within) = piece_bounds pieces (suc k) recv.arriving (omega arith) enough in
    let there : (length recv.arriving == 0) ≡ false = ground arith in
    let some_left : (suc k == 0) ≡ false = ground arith in
    let total : size + (suc k - size) ≡ suc k = omega (arith, within) in
    let read = take size recv.arriving in
    let later = drop size recv.arriving in
    let next = record recv { arriving = later } in
    let rest =
      payload_loop-whole fuel pieces kind (suc k - size) next (deliver kind out read)
        (omega (arith, some_read, lt))
        (omega (arith, length-drop size recv.arriving, within, enough)) in
    rw
      (
        some_left,
        there,
        rest,
        deliver_twice kind out read,
        take_twice size (suc k - size),
        drop_twice size (suc k - size),
        total,
      )
      refl

-- a frame: its type and its payload
abbrev pub Frame : Type 0
Frame = ℕ × List ℕ

abbrev pub IsFrame : Frame → Type 0
IsFrame f = (f.0 < 2 ^ 62) × (length f.1 < 2 ^ 62)

unfoldable pub deliver_all : List Frame → List ℕ → List ℕ
deliver_all [] out = out
deliver_all (f ∷ fs) out = deliver_all fs (deliver f.0 out f.1)

module _ (codec : VarIntCodec) where
  unfoldable pub frame_bytes : Frame → List ℕ
  frame_bytes f = codec.encode f.0 ++ (codec.encode (length f.1) ++ f.1)

  unfoldable pub stream_bytes : List Frame → List ℕ
  unfolding frame_bytes
  stream_bytes [] = []
  stream_bytes (f ∷ fs) = frame_bytes f ++ stream_bytes fs

  abbrev pub after : Recv → List ℕ → Recv
  after recv bytes = record recv { arriving = bytes }

  read_varint_or_eof_heads :
      (recv : Recv) (bytes rest : List ℕ)
      → HeadsLength bytes
      → read_varint_or_eof codec (after recv (bytes ++ rest))
        ≡ ok (value_of (codec.decode bytes), after recv rest)
  unfolding read_varint_or_eof read
  read_varint_or_eof_heads recv [] rest h = elim h [ ]
  read_varint_or_eof_heads recv (first ∷ more) rest h =
      let whole : ltb (length (more ++ rest)) (2 ^ (first / 64) - 1) ≡ false =
        ground (arith, length-append more rest, h) in
      rw
        (
          whole,
          sym h,
          take-append_length (first ∷ more) rest,
          drop-append_length (first ∷ more) rest,
        )
        refl

  module _ (law : IsPrefixed codec) where
    pub read_varint_or_eof-encode :
        (recv : Recv) (value : ℕ) (rest : List ℕ)
        → value < 2 ^ 62
        → read_varint_or_eof codec (after recv (codec.encode value ++ rest))
          ≡ ok (some value, after recv rest)
    read_varint_or_eof-encode recv value rest h =
        let decoded : codec.decode (codec.encode value)
            ≡ some (value, length (codec.encode value)) =
          ap codec.decode (sym (append-nil (codec.encode value)))
          ∙ codec.decode-encode value [] h in
        read_varint_or_eof_heads recv (codec.encode value) rest (law.heads value h)
        ∙ rw decoded refl

    pub read_varint-encode :
        (recv : Recv) (value : ℕ) (rest : List ℕ)
        → value < 2 ^ 62
        → read_varint codec (after recv (codec.encode value ++ rest)) ≡ ok (value, after recv rest)
    unfolding read_varint
    read_varint-encode recv value rest h =
        rw (read_varint_or_eof-encode recv value rest h, read_varint) refl

    -- the frame at the head of a stream
    download_loop-frame :
        (fuel : ℕ) (pieces : ℕ → ℕ) (recv : Recv) (f : Frame) (rest out : List ℕ)
        → IsFrame f
        → download_loop codec (suc fuel) pieces (after recv (frame_bytes f ++ rest)) out
          ≡ download_loop codec fuel pieces (after recv rest) (deliver f.0 out f.1)
    unfolding download_loop frame_bytes
    download_loop-frame fuel pieces recv (kind, payload) rest out (hk, hl) =
        let len = length payload in
        let body = after recv (payload ++ rest) in
        let taken =
          payload_loop-whole (suc len) pieces kind len body out (omega arith)
            (omega (arith, length-append payload rest)) in
        rw
          (
            append_assoc (codec.encode kind) (codec.encode len ++ payload) rest,
            append_assoc (codec.encode len) payload rest,
            read_varint_or_eof-encode recv kind (codec.encode len ++ (payload ++ rest)) hk,
            download_loop,
            read_varint-encode recv len (payload ++ rest) hl,
            taken,
            taken,
            take-append_length payload rest,
            drop-append_length payload rest,
          )
          refl

    download_loop-end :
        (fuel : ℕ) (pieces : ℕ → ℕ) (recv : Recv) (out : List ℕ)
        → download_loop codec (suc fuel) pieces (after recv []) out ≡ (at_end recv tt, out)
    unfolding download_loop read_varint_or_eof
    download_loop-end fuel pieces recv out = elim (Bool-cases recv.is_reset) [
      | inl cut ↦ rw cut refl
      | inr finished ↦ rw finished refl
    ]

    download_loop-frames :
        (fuel : ℕ) (pieces : ℕ → ℕ) (recv : Recv) (fs : List Frame) (out : List ℕ)
        → All IsFrame fs
        → length fs < fuel
        → download_loop codec fuel pieces (after recv (stream_bytes fs)) out
          ≡ (at_end recv tt, deliver_all fs out)
    unfolding stream_bytes deliver_all
    download_loop-frames zero pieces recv fs out good lt = absurd (omega arith)
    download_loop-frames (suc fuel) pieces recv [] out good lt =
        download_loop-end fuel pieces recv out
    download_loop-frames (suc fuel) pieces recv (f ∷ fs) out (h, good) lt =
        download_loop-frame fuel pieces recv f (stream_bytes fs) out h
        ∙ download_loop-frames fuel pieces recv fs (deliver f.0 out f.1) good (omega (arith, lt))

    length-stream_bytes : (fs : List Frame) → All IsFrame fs → length fs ≤ length (stream_bytes fs)
    unfolding stream_bytes frame_bytes
    length-stream_bytes [] good = omega arith
    length-stream_bytes (f ∷ fs) ((hk, hl), good) =
        let rest = length-stream_bytes fs good in
        let head = HeadsLength-positive (codec.encode f.0) (law.heads f.0 hk) in
        let whole = length-append (frame_bytes f) (stream_bytes fs) in
        let parts = length-append (codec.encode f.0) (codec.encode (length f.1) ++ f.1) in
        omega (arith, rest, head, whole, parts)

    -- Whatever pieces the reads give: of a stream of frames, the payloads of its DATA frames are delivered
    -- in order and those of other types are skipped; the end of the stream behind the last frame is its
    -- end, and a reset there is reported as the error that it is.
    pub drain_download-frames :
        (pieces : ℕ → ℕ) (recv : Recv) (fs : List Frame)
        → All IsFrame fs
        → recv.arriving ≡ stream_bytes fs
        → drain_download codec pieces recv ≡ (at_end recv tt, deliver_all fs [])
    unfolding drain_download
    drain_download-frames pieces recv fs good arrives = rw arrives (
        download_loop-frames (suc (length (stream_bytes fs))) pieces recv fs [] good
          (omega (arith, length-stream_bytes fs good)))

-- What is given to be sent, as the frames that carry it.
abbrev pub data_frames : List (List ℕ) → List Frame
data_frames [] = []
data_frames (chunk ∷ chunks) = (0, chunk) ∷ data_frames chunks

abbrev pub IsChunk : List ℕ → Type 0
IsChunk chunk = (0 < length chunk) × (length chunk ≤ relay_buf)

abbrev pub joined : List (List ℕ) → List ℕ
joined [] = []
joined (chunk ∷ chunks) = chunk ++ joined chunks

data_frames-IsFrame :
    (chunks : List (List ℕ)) → All IsChunk chunks → All IsFrame (data_frames chunks)
data_frames-IsFrame [] all = tt
data_frames-IsFrame (chunk ∷ chunks) ((some_bytes, small), all) =
    ((omega arith, omega (arith, small)), data_frames-IsFrame chunks all)

deliver_all-data_frames :
    (chunks : List (List ℕ)) (out : List ℕ)
    → deliver_all (data_frames chunks) out ≡ out ++ joined chunks
unfolding deliver_all
deliver_all-data_frames [] out = sym (append-nil out)
deliver_all-data_frames (chunk ∷ chunks) out =
    deliver_all-data_frames chunks (out ++ chunk) ∙ append_assoc out chunk (joined chunks)

module _ (codec : VarIntCodec) where
  drain_upload-data_frames :
      (chunks : List (List ℕ))
      → All IsChunk chunks
      → drain_upload codec chunks ≡ some (stream_bytes codec (data_frames chunks))
  unfolding drain_upload stream_bytes frame_bytes
  drain_upload-data_frames [] all = refl
  drain_upload-data_frames (chunk ∷ chunks) ((some_bytes, small), all) =
      let more : (length chunk == 0) ≡ false = ground arith in
      rw
        (
          more,
          data_frame_bytes codec chunk (omega (arith, small)),
          drain_upload-data_frames chunks all,
        )
        refl

  -- The two directions fit together: what one side is given in chunks is sent as frames without a panic,
  -- and the other side, in whatever pieces it reads them, delivers exactly those bytes and ends without an
  -- error.
  pub drain_download-drain_upload :
      (pieces : ℕ → ℕ) (chunks : List (List ℕ))
      → IsPrefixed codec
      → All IsChunk chunks
      → (sent : List ℕ) × (drain_upload codec chunks ≡ some sent)
        × (drain_download codec pieces (record { arriving = sent; is_reset = false })
            ≡ (ok tt, joined chunks))
  drain_download-drain_upload pieces chunks law all = (
    stream_bytes codec (data_frames chunks),
    drain_upload-data_frames chunks all,
    drain_download-frames codec law pieces
          (record { arriving = stream_bytes codec (data_frames chunks); is_reset = false })
          (data_frames chunks) (data_frames-IsFrame chunks all) refl
        ∙ ap (λ out. (ok tt, out)) (deliver_all-data_frames chunks []),
  )
