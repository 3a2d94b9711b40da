-- ===== src/Capsule/Runs.antt =====
-- The capsule theorems at a concrete input.
use warp_socks.Prelude.{◌≡◌, [], ◌∷◌, take, drop}
use warp_socks.Capsule.{send_chunks}
use warp_socks.Capsule.Chunks.{concat, sum, Fit, send_chunks-sum}

send_chunks-sum_example :
    (concat (send_chunks (2 ∷ 0 ∷ 9 ∷ []) (1 ∷ 2 ∷ 3 ∷ [])).0
      ≡ take (sum (2 ∷ 0 ∷ 9 ∷ [])) (1 ∷ 2 ∷ 3 ∷ []))
    × ((send_chunks (2 ∷ 0 ∷ 9 ∷ []) (1 ∷ 2 ∷ 3 ∷ [])).1
        ≡ drop (sum (2 ∷ 0 ∷ 9 ∷ [])) (1 ∷ 2 ∷ 3 ∷ []))
    × Fit (2 ∷ 0 ∷ 9 ∷ []) (send_chunks (2 ∷ 0 ∷ 9 ∷ []) (1 ∷ 2 ∷ 3 ∷ [])).0
send_chunks-sum_example = send_chunks-sum (2 ∷ 0 ∷ 9 ∷ []) (1 ∷ 2 ∷ 3 ∷ [])
