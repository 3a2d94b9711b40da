-- ===== src/Doh/Reading.antt =====
-- Reading a response, however the stream is cut into chunks.
use mathlib.Core.List.{append_assoc, append-nil}
use warp_socks.Prelude.{
  take-append, drop-append_within, take-append_length, drop-append_length, ℕ, ◌+◌, ◌≤◌, ◌<◌, ◌≡◌,
  ◌≢◌, refl, sym, ap, ◌∙◌, List, [], ◌∷◌, ◌++◌, Option, none, some, true, false, ◌==◌, ltb, leb,
  length, length-append, take, drop, inl, inr, Bool-cases, Option-cases, both_true, some_injective,
  All, arith,
}
use warp_socks.Prelude.Exec.{ok}
use warp_socks.Doh.{
  starts_with, blank_line, header_end, end_in, read_header, read_body, read_with,
  read_http_response, content_length, Headers,
}

starts_with-append :
    (pattern xs ys : List ℕ) → starts_with pattern xs ≡ true → starts_with pattern (xs ++ ys) ≡ true
unfolding starts_with
starts_with-append [] xs ys h = refl
starts_with-append (p ∷ ps) [] ys h = cc
starts_with-append (p ∷ ps) (x ∷ xs) ys h =
    let (same, rest) = both_true (x == p) (starts_with ps xs) h in
    rw (same, starts_with-append ps xs ys rest) refl

-- a text that is long enough has the pattern in front as soon as the longer one has
starts_with_shorter :
    (pattern xs ys : List ℕ)
    → length pattern ≤ length xs
    → starts_with pattern (xs ++ ys) ≡ true
    → starts_with pattern xs ≡ true
unfolding starts_with
starts_with_shorter [] xs ys le h = refl
starts_with_shorter (p ∷ ps) [] ys le h = absurd (omega arith)
starts_with_shorter (p ∷ ps) (x ∷ xs) ys le h =
    let (same, rest) = both_true (x == p) (starts_with ps (xs ++ ys)) h in
    rw (same, starts_with_shorter ps xs ys (omega (arith, le)) rest) refl

header_end_here :
    (x : ℕ) (xs : List ℕ) → starts_with blank_line (x ∷ xs) ≡ true → header_end (x ∷ xs) ≡ some 4
unfolding header_end
header_end_here x xs on = rw on refl

header_end_later :
    (x : ℕ) (xs : List ℕ)
    → starts_with blank_line (x ∷ xs) ≡ false
    → header_end (x ∷ xs) ≡ end_in false (header_end xs)
unfolding header_end
header_end_later x xs off = rw off refl

header_end_next :
    (x : ℕ) (xs : List ℕ) (m : ℕ)
    → starts_with blank_line (x ∷ xs) ≡ false
    → header_end xs ≡ some m
    → header_end (x ∷ xs) ≡ some (m + 1)
header_end_next x xs m off e = header_end_later x xs off ∙ rw e refl

-- where the position comes from, if there is one
header_end_inverse :
    (x : ℕ) (xs : List ℕ) (n : ℕ)
    → header_end (x ∷ xs) ≡ some n
    → starts_with blank_line (x ∷ xs) ≡ false
    → (m : ℕ) × (header_end xs ≡ some m) × (m + 1 ≡ n)
header_end_inverse x xs n h off =
    let later : end_in false (header_end xs) ≡ some n = sym (header_end_later x xs off) ∙ h in
    elim (Option-cases (header_end xs)) [
      | inl absent ↦
          let impossible : ◌≡◌ {A = Option ℕ} none (some n) = sym (rw absent refl) ∙ later in cc
      | inr (m, e) ↦ (m, e, some_injective (sym (rw e refl) ∙ later))
    ]

header_end_empty : (n : ℕ) → header_end [] ≢ some n
unfolding header_end
header_end_empty n h = cc

starts_with_fits :
    (pattern xs : List ℕ) → starts_with pattern xs ≡ true → length pattern ≤ length xs
unfolding starts_with
starts_with_fits [] xs h = omega arith
starts_with_fits (p ∷ ps) [] h = cc
starts_with_fits (p ∷ ps) (x ∷ xs) h =
    let (same, rest) = both_true (x == p) (starts_with ps xs) h in
    omega (arith, starts_with_fits ps xs rest)

-- the position lies behind a blank line of the text
header_end_bounds : (xs : List ℕ) (n : ℕ) → header_end xs ≡ some n → (4 ≤ n) × (n ≤ length xs)
header_end_bounds [] n h = absurd (header_end_empty n h)
header_end_bounds (x ∷ xs) n h = elim (Bool-cases (starts_with blank_line (x ∷ xs))) [
  | inl on ↦
      let here : 4 ≡ n = some_injective (sym (header_end_here x xs on) ∙ h) in
      (omega (arith, here), omega (arith, here, starts_with_fits blank_line (x ∷ xs) on))
  | inr off ↦
      let (m, e, next) = header_end_inverse x xs n h off in
      let (low, high) = header_end_bounds xs m e in
      (omega (arith, next, low), omega (arith, next, high))
]

header_end-append :
    (xs ys : List ℕ) (n : ℕ) → header_end xs ≡ some n → header_end (xs ++ ys) ≡ some n
header_end-append [] ys n h = absurd (header_end_empty n h)
header_end-append (x ∷ xs) ys n h = elim (Bool-cases (starts_with blank_line (x ∷ xs))) [
  | inl on ↦
      header_end_here x (xs ++ ys) (starts_with-append blank_line (x ∷ xs) ys on)
      ∙ (sym (header_end_here x xs on) ∙ h)
  | inr off ↦
      let (m, e, next) = header_end_inverse x xs n h off in
      let (low, high) = header_end_bounds xs m e in
      elim (Bool-cases (starts_with blank_line (x ∷ xs ++ ys))) [
        | inl sooner ↦
            let here =
              starts_with_shorter blank_line (x ∷ xs) ys (omega (arith, low, high)) sooner in
            cc
        | inr still ↦
            header_end_next x (xs ++ ys) m still (header_end-append xs ys m e)
            ∙ ap (λ k. some k) next
      ]
]

header_end_shorter :
    (xs ys : List ℕ) (n : ℕ)
    → n ≤ length xs
    → header_end (xs ++ ys) ≡ some n
    → header_end xs ≡ some n
header_end_shorter [] ys n le h =
    let (low, high) = header_end_bounds ys n h in absurd (omega (arith, low, le))
header_end_shorter (x ∷ xs) ys n le h = elim (Bool-cases (starts_with blank_line (x ∷ xs ++ ys))) [
  | inl on ↦
      let same : header_end (x ∷ xs ++ ys) ≡ some 4 = header_end_here x (xs ++ ys) on in
      let four : 4 ≡ n = some_injective (sym same ∙ h) in
      header_end_here x xs (starts_with_shorter blank_line (x ∷ xs) ys (omega (arith, four, le)) on)
      ∙ ap (λ k. some k) four
  | inr off ↦
      let (m, e, next) = header_end_inverse x (xs ++ ys) n h off in
      let known = header_end_shorter xs ys m (omega (arith, next, le)) e in
      elim (Bool-cases (starts_with blank_line (x ∷ xs))) [
        | inl sooner ↦ let here = starts_with-append blank_line (x ∷ xs) ys sooner in cc
        | inr still ↦ header_end_next x xs m still known ∙ ap (λ k. some k) next
      ]
]

-- the bytes of a sequence of chunks, none of which is empty
abbrev pub concat : List (List ℕ) → List ℕ
concat [] = []
concat (chunk ∷ chunks) = chunk ++ concat chunks

abbrev pub AreReads : List (List ℕ) → Type 0
AreReads = All (λ chunk. 0 < length chunk)

-- The header is found with the chunk that completes it.
read_header-reads :
    (buf : List ℕ) (chunks : List (List ℕ)) (n : ℕ)
    → AreReads chunks
    → header_end (buf ++ concat chunks) ≡ some n
    → length buf < n
    → n ≤ 8192
    → (read : List ℕ) × (rest : List (List ℕ)) × (read_header buf chunks ≡ ok ((read, n), rest))
      × (read ++ concat rest ≡ buf ++ concat chunks)
      × AreReads rest
      × (n ≤ length read)
unfolding read_header
read_header-reads buf [] n reads h lt le =
    let (low, high) = header_end_bounds (buf ++ []) n h in
    absurd (omega (arith, length-append buf [], high, lt))
read_header-reads buf (chunk ∷ chunks) n (some_bytes, reads) h lt le =
    let more : (length chunk == 0) ≡ false = ground arith in
    let whole : header_end ((buf ++ chunk) ++ concat chunks) ≡ some n =
      rw (append_assoc buf chunk (concat chunks)) h in
    elim (Bool-cases (leb n (length (buf ++ chunk)))) [
      | inl enough ↦
          let found = header_end_shorter (buf ++ chunk) (concat chunks) n (ground arith) whole in
          (
            buf ++ chunk,
            chunks,
            rw (more, found) refl,
            append_assoc buf chunk (concat chunks),
            reads,
            ground arith,
          )
      | inr short ↦
          let lt : length (buf ++ chunk) < n = ground arith in
          let small : ltb 8192 (length (buf ++ chunk)) ≡ false = ground arith in
          let not_yet : header_end (buf ++ chunk) ≡ none =
            elim (Option-cases (header_end (buf ++ chunk))) [
              | inl absent ↦ absent
              | inr (m, e) ↦
                  let same : m ≡ n =
                    some_injective
                      (sym (header_end-append (buf ++ chunk) (concat chunks) m e) ∙ whole) in
                  let (low, high) = header_end_bounds (buf ++ chunk) m e in
                  absurd (omega (arith, same, high, lt))
            ] in
          let (read, rest, found, same, reads, le) =
            read_header-reads (buf ++ chunk) chunks n reads whole lt le in
          (
            read,
            rest,
            rw (more, not_yet, small) found,
            same ∙ append_assoc buf chunk (concat chunks),
            reads,
            le,
          )
    ]

-- The body is cut off behind its length.
read_body-reads :
    (n : ℕ) (body : List ℕ) (chunks : List (List ℕ))
    → AreReads chunks
    → n ≤ length (body ++ concat chunks)
    → read_body n body chunks ≡ ok (take n (body ++ concat chunks))
unfolding read_body
read_body-reads n body [] reads le =
    let whole : n ≤ length body = omega (arith, le, length-append body []) in
    let full : ltb (length body) n ≡ false = ground arith in
    rw full (ap (λ rest. ok (take n rest)) (sym (append-nil body)))
read_body-reads n body (chunk ∷ chunks) (some_bytes, reads) le =
    let more : (length chunk == 0) ≡ false = ground arith in
    elim (Bool-cases (ltb (length body) n)) [
      | inl short ↦
          rw (short, more, sym (append_assoc body chunk (concat chunks)))
            (read_body-reads n (body ++ chunk) chunks reads
              (rw (append_assoc body chunk (concat chunks)) le))
      | inr full ↦
          rw full (ap ok (sym (take-append n body (chunk ++ concat chunks) (ground arith))))
    ]

module _ (parse : List ℕ → Option (Option ℕ × Headers)) (parse_number : List ℕ → Option ℕ) where
  read_with-body :
      (headers : Headers) (head body more : List ℕ) (start : List ℕ) (chunks : List (List ℕ))
      → AreReads chunks
      → start ++ concat chunks ≡ body ++ more
      → parse head ≡ some (some 200, headers)
      → content_length parse parse_number headers ≡ some (length body)
      → read_with parse parse_number (parse head) start chunks ≡ ok body
  unfolding read_with
  read_with-body headers head body more start chunks reads same parses len =
      let fits : length body ≤ length (start ++ concat chunks) =
        rw same (omega (arith, length-append body more)) in
      rw (parses, len)
        (read_body-reads (length body) start chunks reads fits
          ∙ rw same (ap (λ text. ok text) (take-append_length body more)))

  -- However the response is cut into non-empty chunks: if it starts with a header of at most 8192 bytes,
  -- which ends with its first blank line and is read as status 200 and the length of the body that
  -- follows, then exactly that body is returned, whatever comes behind it.
  pub read_http_response-body :
      (headers : Headers) (head body more : List ℕ) (chunks : List (List ℕ))
      → AreReads chunks
      → concat chunks ≡ head ++ (body ++ more)
      → header_end head ≡ some (length head)
      → length head ≤ 8192
      → parse head ≡ some (some 200, headers)
      → content_length parse parse_number headers ≡ some (length body)
      → read_http_response parse parse_number chunks ≡ ok body
  unfolding read_http_response
  read_http_response-body headers head body more chunks reads split ends small parses len =
      let n = length head in
      let (low, high) = header_end_bounds head n ends in
      let whole : header_end (concat chunks) ≡ some n =
        rw split (header_end-append head (body ++ more) n ends) in
      let (read, rest, found, same, left, le) =
        read_header-reads [] chunks n reads whole (omega (arith, low)) small in
      let taken : take n read ≡ head =
        sym (take-append n read (concat rest) le)
        ∙ (rw (same, split) (take-append_length head (body ++ more))) in
      let dropped : drop n read ++ concat rest ≡ body ++ more =
        sym (drop-append_within n read (concat rest) le)
        ∙ (rw (same, split) (drop-append_length head (body ++ more))) in
      rw (found, read_http_response, taken)
        (read_with-body headers head body more (drop n read) rest left dropped parses len)
