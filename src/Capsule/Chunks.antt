-- ===== src/Capsule/Chunks.antt =====
-- What send_packets of outbound/masque/h2.rs hands to the stream of the bytes of a capsule.
use warp_socks.Prelude.{
  ℕ, zero, suc, ◌+◌, ◌≡◌, ◌≤◌, refl, ap, ◌∙◌, List, [], ◌∷◌, ◌++◌, length, take, drop, min, arith,
  ◌==◌, false, length-take,
}
use warp_socks.Capsule.{send_chunks}

pub concat : List (List ℕ) → List ℕ
concat [] = []
concat (xs ∷ xss) = xs ++ concat xss

pub sum : List ℕ → ℕ
sum [] = 0
sum (n ∷ ns) = n + sum ns

-- Chunks that are sent one by one when the stream offers these capacities: none is empty or larger
-- than the capacity of its turn, and nothing is sent while the capacity is zero.
abbrev pub Fit : List ℕ → List (List ℕ) → Type 0
Fit capacities [] = Unit
Fit [] (chunk ∷ chunks) = ⊥
Fit (zero ∷ more) (chunk ∷ chunks) = Fit more (chunk ∷ chunks)
Fit (suc n ∷ more) (chunk ∷ chunks) = (1 ≤ length chunk) × (length chunk ≤ suc n) × Fit more chunks

take-clip : (n k : ℕ) (xs : List ℕ) → k ≡ min n (length xs) → take k xs ≡ take n xs
take-clip zero zero xs h = refl
take-clip zero (suc k) xs h = absurd (omega (arith, h))
take-clip (suc n) zero [] h = refl
take-clip (suc n) zero (x ∷ xs) h = absurd (omega (arith, h))
take-clip (suc n) (suc k) [] h = absurd (omega (arith, h))
take-clip (suc n) (suc k) (x ∷ xs) h = ap (λ l. x ∷ l) (take-clip n k xs (omega (arith, h)))

drop-clip : (n k : ℕ) (xs : List ℕ) → k ≡ min n (length xs) → drop k xs ≡ drop n xs
drop-clip zero zero xs h = refl
drop-clip zero (suc k) xs h = absurd (omega (arith, h))
drop-clip (suc n) zero [] h = refl
drop-clip (suc n) zero (x ∷ xs) h = absurd (omega (arith, h))
drop-clip (suc n) (suc k) [] h = absurd (omega (arith, h))
drop-clip (suc n) (suc k) (x ∷ xs) h = drop-clip n k xs (omega (arith, h))

take-sum : (n m s : ℕ) (xs : List ℕ) → s ≡ n + m → take n xs ++ take m (drop n xs) ≡ take s xs
take-sum zero m s xs h = let same : m ≡ s = omega (arith, h) in rw same refl
take-sum (suc n) m zero xs h = absurd (omega (arith, h))
take-sum (suc n) zero (suc s) [] h = refl
take-sum (suc n) (suc m) (suc s) [] h = refl
take-sum (suc n) m (suc s) (x ∷ xs) h = ap (λ l. x ∷ l) (take-sum n m s xs (omega (arith, h)))

drop-sum : (n m s : ℕ) (xs : List ℕ) → s ≡ n + m → drop m (drop n xs) ≡ drop s xs
drop-sum zero m s xs h = let same : m ≡ s = omega (arith, h) in rw same refl
drop-sum (suc n) m zero xs h = absurd (omega (arith, h))
drop-sum (suc n) zero (suc s) [] h = refl
drop-sum (suc n) (suc m) (suc s) [] h = refl
drop-sum (suc n) m (suc s) (x ∷ xs) h = drop-sum n m s xs (omega (arith, h))

take-empty : (n : ℕ) → ◌≡◌ {A = List ℕ} [] (take n [])
take-empty zero = refl
take-empty (suc n) = refl

drop-empty : (n : ℕ) → ◌≡◌ {A = List ℕ} [] (drop n [])
drop-empty zero = refl
drop-empty (suc n) = refl

Fit-wait : (more : List ℕ) (chunks : List (List ℕ)) → Fit more chunks → Fit (zero ∷ more) chunks
Fit-wait more [] fit = tt
Fit-wait more (chunk ∷ chunks) fit = fit

-- The bytes of a capsule are handed to the stream in order and as far as its capacities go, whatever
-- they are, zero among them: what was sent is as many bytes from the front as the capacities add up
-- to, the whole capsule when they suffice, and what remains is the rest. No chunk is empty or larger
-- than the capacity that was free in its turn.
pub send_chunks-sum :
    (capacities bytes : List ℕ)
    → (concat (send_chunks capacities bytes).0 ≡ take (sum capacities) bytes)
      × ((send_chunks capacities bytes).1 ≡ drop (sum capacities) bytes)
      × Fit capacities (send_chunks capacities bytes).0
unfolding send_chunks concat sum
send_chunks-sum [] bytes = (refl, refl, tt)
send_chunks-sum (available ∷ more) [] =
    (take-empty (available + sum more), drop-empty (available + sum more), tt)
send_chunks-sum (zero ∷ more) (b ∷ bs) =
    let (sent, left, fit) = send_chunks-sum more (b ∷ bs) in
    let none_free : 0 + sum more ≡ sum more = omega arith in
    (rw none_free sent, rw none_free left, Fit-wait more (send_chunks more (b ∷ bs)).0 fit)
send_chunks-sum (suc n ∷ more) (b ∷ bs) =
    let k = min (suc n) (length (b ∷ bs)) in
    let (sent, left, fit) = send_chunks-sum more (drop k (b ∷ bs)) in
    let dropped = drop-clip (suc n) k (b ∷ bs) refl in
    let size = length-take k (b ∷ bs) (omega arith) in
    let some_free : (suc n == 0) ≡ false = ground arith in
    rw some_free (
      ap (λ l. take k (b ∷ bs) ++ l) sent
          ∙ ap (λ l. l ++ take (sum more) (drop k (b ∷ bs))) (take-clip (suc n) k (b ∷ bs) refl)
          ∙ ap (λ l. take (suc n) (b ∷ bs) ++ take (sum more) l) dropped
          ∙ take-sum (suc n) (sum more) (suc n + sum more) (b ∷ bs) refl,
      left
          ∙ ap (λ l. drop (sum more) l) dropped
          ∙ drop-sum (suc n) (sum more) (suc n + sum more) (b ∷ bs) refl,
      (omega (arith, size), omega (arith, size), fit),
    )
