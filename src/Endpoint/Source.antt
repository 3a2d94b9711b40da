-- ===== src/Endpoint/Source.antt =====
-- endpoint/source.rs: the reading of candidates. The parsers of a u16 and of an IP address (whether it
-- is one of version 6), the decimal text of a number, and `trim` are the standard library's.
use warp_socks.Prelude.{
  ℕ, List, [], ◌∷◌, ◌++◌, Option, none, some, Bool, false, ◌||◌, length, ◌==◌, if◌then◌else◌,
}
use warp_socks.Endpoint.{Text, dedup}

-- BUILTIN_CANDIDATES
abbrev pub builtin_candidates : List Text
builtin_candidates =
    (b'1' ∷ b'6' ∷ b'2' ∷ b'.' ∷ b'1' ∷ b'5' ∷ b'9' ∷ b'.' ∷ b'1' ∷ b'9' ∷ b'3' ∷ b'.' ∷ b'5' ∷ b':'
      ∷ b'2' ∷ b'4' ∷ b'0' ∷ b'8' ∷ [])
    ∷ (b'1' ∷ b'6' ∷ b'2' ∷ b'.' ∷ b'1' ∷ b'5' ∷ b'9' ∷ b'.' ∷ b'1' ∷ b'9' ∷ b'3' ∷ b'.' ∷ b'9'
        ∷ b':' ∷ b'5' ∷ b'0' ∷ b'0' ∷ [])
    ∷ (b'1' ∷ b'6' ∷ b'2' ∷ b'.' ∷ b'1' ∷ b'5' ∷ b'9' ∷ b'.' ∷ b'1' ∷ b'9' ∷ b'3' ∷ b'.' ∷ b'8'
        ∷ b':' ∷ b'1' ∷ b'7' ∷ b'0' ∷ b'1' ∷ [])
    ∷ (b'1' ∷ b'6' ∷ b'2' ∷ b'.' ∷ b'1' ∷ b'5' ∷ b'9' ∷ b'.' ∷ b'1' ∷ b'9' ∷ b'3' ∷ b'.' ∷ b'3'
        ∷ b':' ∷ b'4' ∷ b'5' ∷ b'0' ∷ b'0' ∷ [])
    ∷ (b'1' ∷ b'6' ∷ b'2' ∷ b'.' ∷ b'1' ∷ b'5' ∷ b'9' ∷ b'.' ∷ b'1' ∷ b'9' ∷ b'3' ∷ b'.' ∷ b'7'
        ∷ b':' ∷ b'2' ∷ b'4' ∷ b'0' ∷ b'8' ∷ [])
    ∷ (b'1' ∷ b'6' ∷ b'2' ∷ b'.' ∷ b'1' ∷ b'5' ∷ b'9' ∷ b'.' ∷ b'1' ∷ b'9' ∷ b'3' ∷ b'.' ∷ b'4'
        ∷ b'7' ∷ b':' ∷ b'5' ∷ b'0' ∷ b'0' ∷ [])
    ∷ (b'1' ∷ b'6' ∷ b'2' ∷ b'.' ∷ b'1' ∷ b'5' ∷ b'9' ∷ b'.' ∷ b'1' ∷ b'9' ∷ b'3' ∷ b'.' ∷ b'1'
        ∷ b'0' ∷ b':' ∷ b'1' ∷ b'7' ∷ b'0' ∷ b'1' ∷ [])
    ∷ (b'1' ∷ b'6' ∷ b'2' ∷ b'.' ∷ b'1' ∷ b'5' ∷ b'9' ∷ b'.' ∷ b'1' ∷ b'9' ∷ b'3' ∷ b'.' ∷ b'1'
        ∷ b'1' ∷ b':' ∷ b'4' ∷ b'5' ∷ b'0' ∷ b'0' ∷ [])
    ∷ []

-- `split_once` at a byte: what stands before the first one, and after it
pub split_once : ℕ → Text → Option (Text × Text)
split_once sep [] = none
split_once sep (c ∷ cs) =
    if c == sep
    then some ([], cs)
    else elim (split_once sep cs) [ none ↦ none | some (before, after) ↦ some (c ∷ before, after) ]

-- the same at the last one (`rfind`)
pub split_last : ℕ → Text → Option (Text × Text)
split_last sep [] = none
split_last sep (c ∷ cs) = elim (split_last sep cs) [
  | some (before, after) ↦ some (c ∷ before, after)
  | none ↦ if c == sep then some ([], cs) else none
]

-- `strip_prefix(':').unwrap_or("")`
pub after_colon : Text → Text
after_colon [] = []
after_colon (c ∷ cs) = if c == b':' then cs else []

-- the host and the port's text
pub host_port : Text → Option (Text × Text)
host_port [] = none
host_port (c ∷ cs) =
    if c == b'['
    then elim (split_once b']' cs) [
      | none ↦ none
      | some (host, after) ↦ some (host, after_colon after)
    ]
    else elim (split_last b':' (c ∷ cs)) [
      | none ↦ some (c ∷ cs, [])
      | some (host, port) ↦ some (host, port)
    ]

pub has_colon : Text → Bool
has_colon [] = false
has_colon (c ∷ cs) = c == b':' || has_colon cs

abbrev default_port : Text
default_port = b'2' ∷ b'4' ∷ b'0' ∷ b'8' ∷ []

module _ (trim : Text → Text) (parse_u16 : Text → Option ℕ) (is_ipv6 : Text → Bool)
    (show : ℕ → Text) where
  pub format_endpoint : Text → ℕ → Text
  format_endpoint host port =
      if is_ipv6 host || has_colon host
      then b'[' ∷ (host ++ (b']' ∷ b':' ∷ show port))
      else host ++ (b':' ∷ show port)

  pub normalize_endpoint : Text → Option Text
  normalize_endpoint raw = elim (host_port (trim raw)) [
    | none ↦ none
    | some (host, port) ↦
        if length host == 0
        then none
        else elim (parse_u16 (if length port == 0 then default_port else port)) [
          | none ↦ none
          | some n ↦ if n == 0 then none else some (format_endpoint host n)
        ]
  ]

  pub normalized : List Text → List Text
  normalized [] = []
  normalized (raw ∷ rest) = elim (normalize_endpoint raw) [
    | none ↦ normalized rest
    | some endpoint ↦ endpoint ∷ normalized rest
  ]

  -- the candidates that were given, as the pieces between commas, or else those built in
  pub candidate_pool : List Text → List Text
  candidate_pool pieces = elim (dedup [] (normalized pieces)) [
    | [] ↦ dedup [] builtin_candidates
    | e ∷ es ↦ e ∷ es
  ]
