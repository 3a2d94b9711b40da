-- ===== src/Endpoint/Plan.antt =====
-- The order of candidates of endpoint/source.rs.
use warp_socks.Prelude.{
  ℕ, suc, ◌+◌, ◌≡◌, refl, sym, ap, ◌∙◌, List, [], ◌∷◌, ◌++◌, some, Bool, true, false, ltb,
  if◌then◌else◌, Bool-cases, Option-cases, inl, inr, arith,
}
use warp_socks.Prelude.Utf8.{bytes_eq_refl, bytes_eq_sound, bytes_eq}
use warp_socks.Endpoint.{
  Text, Store, contains, dedup, ready, cooling, merged, plan_candidates, last_good, is_cooling_down,
  cooldown_remaining, until_of, save, mark_cooldown, insert,
}

-- how often a text stands in a list
pub count : Text → List Text → ℕ
count x [] = 0
count x (y ∷ ys) = if bytes_eq y x then suc (count x ys) else count x ys

count-append : (x : Text) (xs ys : List Text) → count x (xs ++ ys) ≡ count x xs + count x ys
unfolding count
count-append x [] ys = omega arith
count-append x (z ∷ xs) ys = let rest = count-append x xs ys in ground arith

count-partition :
    (store : Store) (now : ℕ) (x : Text) (xs : List Text)
    → count x (ready store now xs) + count x (cooling store now xs) ≡ count x xs
unfolding count ready cooling
count-partition store now x [] = omega arith
count-partition store now x (y ∷ ys) = let rest = count-partition store now x ys in ground arith

count-dedup :
    (x : Text) (seen xs : List Text)
    → count x (dedup seen xs) ≡ (if contains x seen then 0 else if contains x xs then 1 else 0)
unfolding dedup count contains
count-dedup x seen [] = ground arith
count-dedup x seen (y ∷ ys) =
    let skipped = count-dedup x seen ys in
    let kept = count-dedup x (y ∷ seen) ys in
    elim (Bool-cases (bytes_eq y x)) [
      | inr other ↦ elim (Bool-cases (contains y seen)) [
        | inl before ↦ rw (before, other) skipped
        | inr first ↦ rw (first, other) (kept ∙ rw other refl)
      ]
      | inl same ↦
          let moved : contains x seen ≡ contains y seen =
            ap (λ z. contains z seen) (sym (bytes_eq_sound y x same)) in
          elim (Bool-cases (contains y seen)) [
            | inl before ↦ rw (before, moved, before) (skipped ∙ rw (moved, before) refl)
            | inr first ↦ rw (first, same, moved, first) (ap suc (kept ∙ rw same refl))
          ]
    ]

count-merged :
    (pool : List Text) (store : Store) (x : Text)
    → count x (merged pool store) ≡ (if contains x pool then 1 else 0)
unfolding merged contains
count-merged pool store x = elim (Option-cases (last_good store)) [
  | inl unknown ↦ rw (unknown, merged) (count-dedup x [] pool)
  | inr (e, good) ↦ elim (Bool-cases (contains e pool)) [
    | inr outside ↦ rw (good, outside, merged) (count-dedup x [] pool)
    | inl inside ↦ elim (Bool-cases (bytes_eq e x)) [
      | inr other ↦
          rw (good, inside, merged) (count-dedup x [] (e ∷ pool) ∙ rw (other, contains) refl)
      | inl same ↦
          let known : contains x pool ≡ true =
            ap (λ z. contains z pool) (sym (bytes_eq_sound e x same)) ∙ inside in
          rw (good, inside, known, merged) (count-dedup x [] (e ∷ pool) ∙ rw (same, contains) refl)
    ]
  ]
]

-- Every endpoint of the pool stands exactly once in the list of plan_candidates, and nothing else does,
-- whatever the last good endpoint is, how often the pool names an endpoint, and which endpoints are
-- cooling down.
pub count-plan_candidates :
    (pool : List Text) (store : Store) (now : ℕ) (x : Text)
    → count x (plan_candidates pool store now) ≡ (if contains x pool then 1 else 0)
unfolding plan_candidates
count-plan_candidates pool store now x =
    count-append x (ready store now (merged pool store)) (cooling store now (merged pool store))
    ∙ count-partition store now x (merged pool store)
    ∙ count-merged pool store x

is_cooling_down-until :
    (store : Store) (t : ℕ) (e : Text) (until : ℕ)
    → until_of store.state.cooldowns e ≡ some until
    → is_cooling_down store t e ≡ ltb t until
unfolding is_cooling_down cooldown_remaining
is_cooling_down-until store t e until h = rw (h, cooldown_remaining) (ground arith)

until_of-insert :
    (e : Text) (until : ℕ) (entries : List (Text × ℕ))
    → until_of (insert e until entries) e ≡ some until
unfolding insert until_of
until_of-insert e until entries = rw (bytes_eq_refl e, until_of) refl

-- An endpoint that was marked is cooling down from then on for the whole duration and no longer,
-- whatever cooldown it had before, also when the state could not be written to its file.
pub is_cooling_down-mark_cooldown :
    (store : Store) (written : Bool) (now duration t : ℕ) (e : Text)
    → is_cooling_down (mark_cooldown written now duration e store).1 t e ≡ ltb t (now + duration)
unfolding mark_cooldown save
is_cooling_down-mark_cooldown store true now duration t e =
    is_cooling_down-until _ t e (now + duration)
      (until_of-insert e (now + duration) store.state.cooldowns)
is_cooling_down-mark_cooldown store false now duration t e =
    is_cooling_down-until _ t e (now + duration)
      (until_of-insert e (now + duration) store.state.cooldowns)
