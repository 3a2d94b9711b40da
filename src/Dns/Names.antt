-- ===== src/Dns/Names.antt =====
-- A name of a DNS message, and how `skip_name` of dns.rs passes over it.
use native.Mathlib.Nat.{zero-add}
use mathlib.Core.List.{append_assoc}
use warp_socks.Prelude.{
  ℕ, zero, suc, ◌+◌, ◌<◌, ◌≤◌, ◌≡◌, refl, ap, ◌∙◌, List, [], ◌∷◌, ◌++◌, true, false, length, get_or,
  drop, leb, ◌==◌, bit_and, arith, drop-append, length-append,
}
use warp_socks.Prelude.Exec.{ok}
use warp_socks.Prelude.Bytes.{and_0xc0}
use warp_socks.Dns.{byte_at, skip_labels, skip_name}

-- a name on the wire: labels, and then the root or a pointer
pub data IsName : List ℕ → Type 0 where
  root : IsName (0 ∷ [])
  pointer : (hi lo : ℕ) → 192 ≤ hi → hi < 256 → IsName (hi ∷ lo ∷ [])
  label :
      (bytes rest : List ℕ)
      → 0 < length bytes
      → length bytes < 64
      → IsName rest
      → IsName (length bytes ∷ (bytes ++ rest))

-- a byte by its distance from a position
pub byte : (buf : List ℕ) (p i j : ℕ) → j ≡ p + i → get_or buf j 0 ≡ get_or (drop p buf) i 0
byte buf zero i j h = rw (h, zero-add) refl
byte [] (suc p) i j h = refl
byte (x ∷ buf) (suc p) i zero h = absurd (omega arith)
byte (x ∷ buf) (suc p) i (suc j) h = byte buf p i j (omega arith)

drop-length : (p : ℕ) (buf : List ℕ) → p ≤ length buf → p + length (drop p buf) ≡ length buf
drop-length zero buf h = rw zero-add refl
drop-length (suc p) [] h = absurd (omega (arith, h))
drop-length (suc p) (x ∷ buf) h = let rest = drop-length p buf (omega (arith, h)) in omega arith

-- a position with a byte after it lies inside
inside :
    (buf : List ℕ) (pos x : ℕ) (xs : List ℕ)
    → drop pos buf ≡ x ∷ xs
    → pos ≤ length buf
    → (leb (length buf) pos ≡ false) × (byte_at buf pos ≡ x) × (pos + suc (length xs) ≡ length buf)
inside buf pos x xs e h =
    let all : pos + length (drop pos buf) ≡ length buf = drop-length pos buf h in
    let len : length (drop pos buf) ≡ suc (length xs) = ap length e in
    let first : get_or buf pos 0 ≡ get_or (drop pos buf) 0 0 = byte buf pos 0 pos (omega arith) in
    (ground arith, first ∙ ap (λ l. get_or l 0 0) e, omega arith)

skip_labels-IsName :
    (name : List ℕ) (n : IsName name) (fuel : ℕ) (buf rest : List ℕ) (pos : ℕ)
    → drop pos buf ≡ name ++ rest
    → pos ≤ length buf
    → length name ≤ fuel
    → skip_labels fuel buf pos ≡ ok (pos + length name)
unfolding skip_labels
skip_labels-IsName name root zero buf rest pos e h f = absurd (omega (arith, f))
skip_labels-IsName name (pointer hi lo above below) zero buf rest pos e h f =
    absurd (omega (arith, f))
skip_labels-IsName name (label bytes tail some_bytes short n) zero buf rest pos e h f =
    absurd (omega (arith, f))
skip_labels-IsName name root (suc fuel) buf rest pos e h f =
    let (within, first, _) = inside buf pos 0 rest e h in rw (within, first) refl
skip_labels-IsName name (pointer hi lo above below) (suc fuel) buf rest pos e h f =
    let (within, first, total) = inside buf pos hi (lo ∷ rest) e h in
    rw (within, first, nonzero, is_pointer, both total) refl
  where
    nonzero : (hi == 0) ≡ false
    nonzero = ground arith

    is_pointer : (bit_and hi 0xc0 == 0xc0) ≡ true
    is_pointer = rw (and_0xc0 hi below) (ground arith)

    both : pos + suc (suc (length rest)) ≡ length buf → leb (length buf) (pos + 1) ≡ false
    both t = ground arith
skip_labels-IsName name (label bytes tail some_bytes short n) (suc fuel) buf rest pos e h f =
    let (within, first, total) = inside buf pos (length bytes) ((bytes ++ tail) ++ rest) e h in
    let (after, size) =
      drop-append pos buf (length bytes ∷ bytes) (tail ++ rest)
        (e ∙ ap (λ l. length bytes ∷ l) (append_assoc bytes tail rest)) h in
    let moved : pos + (1 + length bytes) ≡ pos + suc (length bytes) = omega arith in
    let fits : pos + suc (length bytes) ≤ length buf = omega (arith, size) in
    let left : length tail ≤ fuel = omega (arith, f, length-append bytes tail) in
    rw (within, first, nonzero, no_pointer, moved)
      (skip_labels-IsName tail n fuel buf rest (pos + suc (length bytes)) after fits left
        ∙ ap ok (omega (arith, length-append bytes tail)))
  where
    nonzero : (length bytes == 0) ≡ false
    nonzero = ground arith

    no_pointer : (bit_and (length bytes) 0xc0 == 0xc0) ≡ false
    no_pointer = rw (and_0xc0 (length bytes) (omega (arith, short))) (ground arith)

pub skip_name-IsName :
    (name : List ℕ)
    → IsName name
    → (buf rest : List ℕ) (pos : ℕ) → drop pos buf ≡ name ++ rest
    → pos ≤ length buf
    → skip_name buf pos ≡ ok (pos + length name)
unfolding skip_name
skip_name-IsName name n buf rest pos e h =
    let (_, size) = drop-append pos buf name rest e h in
    skip_labels-IsName name n (suc (length buf)) buf rest pos e h (omega (arith, size))
