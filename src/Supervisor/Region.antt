-- ===== src/Supervisor/Region.antt =====
-- supervisor.rs: prepare_region, the choice of a Psiphon entry for a country, and its cache. The list
-- of entries that is fetched, the shuffled indices, the clock (in seconds), and the outcome of every
-- attempt are arguments.
use warp_socks.Prelude.{
  ℕ, ◌+◌, ◌-◌, ◌≡◌, refl, List, [], ◌∷◌, Option, none, some, Bool, true, false, leb, ◌==◌,
  if◌then◌else◌, take, inl, inr, Bool-cases, ==→eq, ap, sym, ◌∙◌, ◌<◌, arith, get_elem?,
}
use warp_socks.Prelude.Exec.{Result, ok, err}

pub data Error : Type 0 where
  no_credentials no_entries all_failed : Error

pub record CachedCandidates (Entry : Type 0) : Type 0 where
  pub entries : List Entry
  pub fetched : ℕ
  pub preferred : Option ℕ

-- `order.swap(0, index)`, where `index` is the position of the preferred entry
pub replace : ℕ → ℕ → List ℕ → List ℕ
replace old new [] = []
replace old new (x ∷ xs) = if x == old then new ∷ xs else x ∷ replace old new xs

unfoldable pub has : ℕ → List ℕ → Bool
has x [] = false
has x (y ∷ ys) = if y == x then true else has x ys

pub swap_first : Option ℕ → List ℕ → List ℕ
swap_first none order = order
swap_first (some preferred) [] = []
swap_first (some preferred) (x ∷ xs) =
    if x == preferred
    then x ∷ xs
    else if has preferred xs
    then preferred ∷ replace preferred x xs
    else x ∷ xs

module _ {Entry Conn : Type 0} (attempt : Entry → Option Conn) where
  -- the loop over the order: the first entry whose path is verified
  pub try_entries : List Entry → List ℕ → Option (Conn × ℕ)
  try_entries entries [] = none
  try_entries entries (i ∷ order) = elim (get_elem? entries i) [
    | none ↦ none
    | some entry ↦ elim (attempt entry) [
      | some conn ↦ some (conn, i)
      | none ↦ try_entries entries order
    ]
  ]

  -- a day-old cache is fetched again; a failed fetch leaves it
  pub refresh :
      Option (List Entry) → ℕ → Option (CachedCandidates Entry) → Option (CachedCandidates Entry)
  refresh fetch now none = elim fetch [
    | none ↦ none
    | some entries ↦ some (record { entries = entries; fetched = now; preferred = none })
  ]
  refresh fetch now (some cache) =
      if leb 86400 (now - cache.fetched)
      then elim fetch [
        | none ↦ none
        | some entries ↦ some (record { entries = entries; fetched = now; preferred = none })
      ]
      else some cache

  pub try_region :
      List ℕ → CachedCandidates Entry → Result Error Conn × Option (CachedCandidates Entry)
  try_region shuffled cache =
      elim (try_entries cache.entries (take 8 (swap_first cache.preferred shuffled))) [
        | none ↦ (err all_failed, none)
        | some (conn, i) ↦ (ok conn, some (record cache { preferred = some i }))
      ]

  pub prepare_region :
      Bool
      → Option (List Entry)
      → ℕ
      → List ℕ
      → Option (CachedCandidates Entry)
      → Result Error Conn × Option (CachedCandidates Entry)
  prepare_region false fetch now shuffled cache = (err no_credentials, cache)
  prepare_region true fetch now shuffled cache = elim (refresh fetch now cache) [
    | none ↦ (err no_entries, cache)
    | some fresh ↦ try_region shuffled fresh
  ]

swap_first-has :
    (p : ℕ) (order : List ℕ)
    → has p order ≡ true
    → (rest : List ℕ) × (swap_first (some p) order ≡ p ∷ rest)
unfolding swap_first has
swap_first-has p [] h = cc
swap_first-has p (x ∷ xs) h = elim (Bool-cases (x == p)) [
  | inl same ↦ (xs, rw (same, swap_first) (ap (λ z. z ∷ xs) (==→eq x p same)))
  | inr other ↦
      let later : has p xs ≡ true = sym (rw (other, has) refl) ∙ h in
      (replace p x xs, rw (other, later, swap_first) refl)
]

-- While the fetched entries are less than a day old, the entry that worked last is attempted first:
-- when its path is verified again, it is the outlet, whatever the other entries do and without a new
-- fetch, and it stays the preferred one. The credentials can be loaded.
pub prepare_region-preferred :
    {Entry Conn : Type 0} (attempt : Entry → Option Conn) (fetch : Option (List Entry)) (now : ℕ)
    (shuffled : List ℕ) (entries : List Entry) (fetched p : ℕ) (entry : Entry) (conn : Conn)
    → now < fetched + 86400
    → has p shuffled ≡ true
    → get_elem? entries p ≡ some entry
    → attempt entry ≡ some conn
    → prepare_region attempt true fetch now shuffled
        (some (record { entries = entries; fetched = fetched; preferred = some p }))
      ≡ (ok conn, some (record { entries = entries; fetched = fetched; preferred = some p }))
unfolding prepare_region refresh try_region try_entries
prepare_region-preferred attempt fetch now shuffled entries fetched p entry conn recent listed found
      verified =
    let (rest, first) = swap_first-has p shuffled listed in
    let fresh : leb 86400 (now - fetched) ≡ false = ground arith in
    rw (fresh, prepare_region, refresh, try_region, first, try_entries, found, verified) refl
