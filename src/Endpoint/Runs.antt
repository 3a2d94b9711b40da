-- ===== src/Endpoint/Runs.antt =====
-- The endpoint theorems at concrete inputs.
use warp_socks.Prelude.{◌+◌, ◌≡◌, refl, List, [], ◌∷◌, none, true, ltb, if◌then◌else◌}
use warp_socks.Endpoint.{Text, Store, contains, plan_candidates, mark_cooldown, is_cooling_down}
use warp_socks.Endpoint.Plan.{count, count-plan_candidates, is_cooling_down-mark_cooldown}

abbrev pool : List Text
pool = (b'a' ∷ []) ∷ (b'b' ∷ []) ∷ (b'c' ∷ []) ∷ (b'b' ∷ []) ∷ []

abbrev store : Store
store = record {
  state = record { last_good_endpoint = b'c' ∷ []; cooldowns = (b'a' ∷ [], 90) ∷ [] };
  file = none;
}

planned : plan_candidates pool store 60 ≡ (b'c' ∷ []) ∷ (b'b' ∷ []) ∷ (b'a' ∷ []) ∷ []
unfolding plan_candidates
planned = refl

count-plan_candidates_example :
    count (b'b' ∷ []) (plan_candidates pool store 60) ≡ (if contains (b'b' ∷ []) pool then 1 else 0)
count-plan_candidates_example = count-plan_candidates pool store 60 (b'b' ∷ [])

is_cooling_down-mark_cooldown_example :
    is_cooling_down (mark_cooldown true 60 30 (b'b' ∷ []) store).1 89 (b'b' ∷ []) ≡ ltb 89 (60 + 30)
is_cooling_down-mark_cooldown_example =
    is_cooling_down-mark_cooldown store true 60 30 89 (b'b' ∷ [])
