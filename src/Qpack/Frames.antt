-- ===== src/Qpack/Frames.antt =====
-- Frames: a reader written from RFC 9114 (section 7.1) gets back what the writers wrote.
use mathlib.Core.List.{append_assoc}
use warp_socks.Prelude.{
  ℕ, ◌^◌, ◌<◌, ◌≡◌, refl, ap, ◌∙◌, List, [], ◌++◌, Option, none, some, arith, length, take, drop,
  take-append_length, drop-append_length, ltb, if◌then◌else◌, false, length-append,
}
use warp_socks.VarInt.{VarIntCodec, read, write}
use warp_socks.Qpack.{write_frame, data_frame, headers_frame}

-- the type and the payload of the frame at the head of `bytes`, and what follows it
abbrev pub payload_of : ℕ → List ℕ → ℕ → Option (ℕ × List ℕ × List ℕ)
payload_of kind bytes len =
    if ltb (length bytes) len then none else some (kind, take len bytes, drop len bytes)

unfoldable pub read_frame : VarIntCodec → List ℕ → Option (ℕ × List ℕ × List ℕ)
read_frame codec bytes = elim (read codec bytes) [
  | none ↦ none
  | some (kind, n) ↦ elim (read codec (drop n bytes)) [
    | none ↦ none
    | some (len, m) ↦ payload_of kind (drop m (drop n bytes)) len
  ]
]

read_frame_parts :
    (codec : VarIntCodec) (bytes : List ℕ) (kind n len m : ℕ)
    → codec.decode bytes ≡ some (kind, n)
    → codec.decode (drop n bytes) ≡ some (len, m)
    → read_frame codec bytes ≡ payload_of kind (drop m (drop n bytes)) len
unfolding read_frame read
read_frame_parts codec bytes kind n len m a b = rw (a, read_frame) (rw (b, read_frame) refl)

write-fits :
    (codec : VarIntCodec) (out : List ℕ) (v : ℕ)
    → v < 2 ^ 62
    → write codec out v ≡ some (out ++ codec.encode v)
unfolding write
write-fits codec out v h = ground arith

write_frame_parts :
    (codec : VarIntCodec) (out payload : List ℕ) (kind : ℕ) (a b : List ℕ)
    → write codec out kind ≡ some a
    → write codec a (length payload) ≡ some b
    → write_frame codec out kind payload ≡ some (b ++ payload)
unfolding write_frame
write_frame_parts codec out payload kind a b e f = rw (e, write_frame) (rw (f, write_frame) refl)

module _ (codec : VarIntCodec) where
  payload_of-append :
      (kind : ℕ) (payload rest : List ℕ)
      → payload_of kind (payload ++ rest) (length payload) ≡ some (kind, payload, rest)
  payload_of-append kind payload rest =
      let fits : ltb (length (payload ++ rest)) (length payload) ≡ false =
        ground (arith, length-append payload rest) in
      rw (fits, take-append_length, drop-append_length) refl

  -- The frame that `write_frame` appends is read back with its type and its payload, whatever
  -- follows it; and `varint::write` does not panic.
  pub read_frame-write_frame :
      (out payload : List ℕ) (kind : ℕ)
      → kind < 2 ^ 62
      → length payload < 2 ^ 62
      → (frame : List ℕ) × (write_frame codec out kind payload ≡ some (out ++ frame))
        × ((rest : List ℕ) → read_frame codec (frame ++ rest) ≡ some (kind, payload, rest))
  read_frame-write_frame out payload kind hk hp =
      let ek = codec.encode kind in
      let el = codec.encode (length payload) in
      (
        ek ++ (el ++ payload),
        write_frame_parts codec out payload kind (out ++ ek) (out ++ ek ++ el)
              (write-fits codec out kind hk) (write-fits codec (out ++ ek) (length payload) hp)
            ∙ ap some (append_assoc (out ++ ek) el payload ∙ append_assoc out ek (el ++ payload)),
        λ rest.
            rw (append_assoc ek (el ++ payload) rest, append_assoc el payload rest)
              (read_frame_parts codec (ek ++ (el ++ (payload ++ rest))) kind (length ek)
                  (length payload) (length el)
                  (codec.decode-encode kind (el ++ (payload ++ rest)) hk)
                  (rw (drop-append_length ek (el ++ (payload ++ rest)))
                    (codec.decode-encode (length payload) (payload ++ rest) hp))
                ∙ rw
                    (
                      drop-append_length ek (el ++ (payload ++ rest)),
                      drop-append_length el (payload ++ rest),
                    )
                    (payload_of-append kind payload rest)),
      )

  write_frame_bytes :
      (kind : ℕ) (payload : List ℕ)
      → kind < 2 ^ 62
      → length payload < 2 ^ 62
      → write_frame codec [] kind payload
        ≡ some (codec.encode kind ++ (codec.encode (length payload) ++ payload))
  write_frame_bytes kind payload hk hl =
      let first = codec.encode kind in
      let len = codec.encode (length payload) in
      write_frame_parts codec [] payload kind first (first ++ len) (write-fits codec [] kind hk)
        (write-fits codec first (length payload) hl)
      ∙ ap some (append_assoc first len payload)

  pub data_frame_bytes :
      (payload : List ℕ)
      → length payload < 2 ^ 62
      → data_frame codec [] payload
        ≡ some (codec.encode 0 ++ (codec.encode (length payload) ++ payload))
  unfolding data_frame
  data_frame_bytes payload h = write_frame_bytes 0 payload (omega arith) h

  pub headers_frame_bytes :
      (payload : List ℕ)
      → length payload < 2 ^ 62
      → headers_frame codec payload
        ≡ some (codec.encode 1 ++ (codec.encode (length payload) ++ payload))
  unfolding headers_frame
  headers_frame_bytes payload h = write_frame_bytes 1 payload (omega arith) h
