-- ===== src/Http/Headers.antt =====
-- Which headers travel on.
use warp_socks.Prelude.{
  ℕ, ◌≡◌, refl, sym, ap, ◌∙◌, List, [], ◌∷◌, Option, none, some, Bool, true, false, ◌||◌,
  if◌then◌else◌, inl, inr, Bool-cases,
}
use warp_socks.Prelude.Utf8.{bytes_eq, bytes_eq_sound}
use warp_socks.Http.{
  HeaderMap, connection, get, get_all, hop_names, host_name, insert, listed, remove, remove_all,
  strip_hop_headers, upgrade, upstream_headers,
}

abbrev pub contains : List ℕ → List (List ℕ) → Bool
contains name [] = false
contains name (n ∷ names) = bytes_eq n name || contains name names

module _ {ℓ} {A : Type ℓ} where
  if_same : (b : Bool) (x : A) → (if b then x else x) ≡ x
  if_same true x = refl
  if_same false x = refl

  if_or : (b c : Bool) (x y : A) → (if b then x else if c then x else y) ≡ (if b || c then x else y)
  if_or true c x y = refl
  if_or false c x y = refl

get_all-remove :
    (name removed : List ℕ) (headers : HeaderMap)
    → get_all name (remove removed headers)
      ≡ (if bytes_eq removed name then [] else get_all name headers)
unfolding get_all remove
get_all-remove name removed [] = elim (Bool-cases (bytes_eq removed name)) [
  | inl same ↦ rw same refl
  | inr other ↦ rw other refl
]
get_all-remove name removed ((n, value) ∷ headers) = elim (Bool-cases (bytes_eq n removed)) [
  | inl gone ↦
      let here : n ≡ removed = bytes_eq_sound n removed gone in
      elim (Bool-cases (bytes_eq removed name)) [
        | inl same ↦ rw (gone, get_all-remove name removed headers, same) refl
        | inr other ↦
            let away : bytes_eq n name ≡ false = ap (λ x. bytes_eq x name) here ∙ other in
            rw (gone, get_all-remove name removed headers, other, away) refl
      ]
  | inr kept ↦ elim (Bool-cases (bytes_eq removed name)) [
    | inl same ↦
        let away : bytes_eq n name ≡ false =
          ap (bytes_eq n) (sym (bytes_eq_sound removed name same)) ∙ kept in
        rw (kept, away, get_all-remove name removed headers, same) refl
    | inr other ↦ rw (kept, get_all-remove name removed headers, other) refl
  ]
]

get_all-remove_all :
    (name : List ℕ) (names : List (List ℕ)) (headers : HeaderMap)
    → get_all name (remove_all names headers)
      ≡ (if contains name names then [] else get_all name headers)
unfolding remove_all
get_all-remove_all name [] headers = refl
get_all-remove_all name (n ∷ names) headers = elim (Bool-cases (bytes_eq n name)) [
  | inl same ↦
      rw (get_all-remove_all name names (remove n headers), get_all-remove name n headers, same)
        (if_same (contains name names) [])
  | inr other ↦
      rw (get_all-remove_all name names (remove n headers), get_all-remove name n headers, other)
        refl
]

-- a header of this hop only: one of the fixed names, or a name that a Connection header lists
abbrev pub is_hop : HeaderMap → List ℕ → Bool
is_hop headers name = contains name hop_names || contains name (listed (get_all connection headers))

get_all-insert :
    (name inserted value : List ℕ) (headers : HeaderMap)
    → get_all name (insert inserted value headers)
      ≡ (if bytes_eq inserted name then value ∷ [] else get_all name headers)
unfolding get_all
get_all-insert name inserted value headers = elim (Bool-cases (bytes_eq inserted name)) [
  | inl same ↦ rw (same, get_all-remove name inserted headers, same) refl
  | inr other ↦ rw (other, get_all-remove name inserted headers, other) refl
]

abbrev pub hop_free : HeaderMap → List ℕ → List (List ℕ)
hop_free headers name = if is_hop headers name then [] else get_all name headers

-- the values of a name behind the stripping
abbrev pub passed_on : HeaderMap → Option (List ℕ) → List ℕ → List (List ℕ)
passed_on headers none name = hop_free headers name
passed_on headers (some value) name =
    if bytes_eq connection name
    then upgrade ∷ []
    else if bytes_eq upgrade name
    then value ∷ []
    else hop_free headers name

get_all-stripped :
    (headers : HeaderMap) (name : List ℕ)
    → get_all name (remove_all hop_names (remove_all (listed (get_all connection headers)) headers))
      ≡ hop_free headers name
get_all-stripped headers name =
    let lists = listed (get_all connection headers) in
    get_all-remove_all name hop_names (remove_all lists headers)
    ∙ ap (λ r. if contains name hop_names then [] else r) (get_all-remove_all name lists headers)
    ∙ if_or (contains name hop_names) (contains name lists) [] (get_all name headers)

-- Of the headers exactly those travel on that belong to more than this hop, with all their values; and
-- when an upgrade was asked for, Connection and Upgrade are set anew.
pub get_all-strip_hop_headers :
    (headers : HeaderMap) (requested : Option (List ℕ)) (name : List ℕ)
    → get_all name (strip_hop_headers headers requested) ≡ passed_on headers requested name
unfolding strip_hop_headers
get_all-strip_hop_headers headers none name = get_all-stripped headers name
get_all-strip_hop_headers headers (some value) name =
    let stripped =
      remove_all hop_names (remove_all (listed (get_all connection headers)) headers) in
    get_all-insert name connection upgrade (insert upgrade value stripped)
    ∙ ap (λ r. if bytes_eq connection name then upgrade ∷ [] else r)
        (get_all-insert name upgrade value stripped
          ∙ ap (λ r. if bytes_eq upgrade name then value ∷ [] else r)
              (get_all-stripped headers name))

-- What the target is sent: the authority as its only Host, Connection and Upgrade only for an upgrade
-- that the client asked for, and of the other headers exactly those that are not of this hop.
pub get_all-upstream_headers :
    (headers : HeaderMap) (authority name : List ℕ)
    → get_all name (upstream_headers headers authority) ≡ (
        if bytes_eq host_name name
        then authority ∷ []
        else passed_on headers (get upgrade headers) name)
unfolding upstream_headers
get_all-upstream_headers headers authority name =
    get_all-insert name host_name authority (strip_hop_headers headers (get upgrade headers))
    ∙ ap (λ r. if bytes_eq host_name name then authority ∷ [] else r)
        (get_all-strip_hop_headers headers (get upgrade headers) name)
