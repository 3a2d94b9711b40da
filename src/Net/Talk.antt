-- ===== src/Net/Talk.antt =====
-- What a handshake has sent to its client, by one rule for each way to build an action.
use mathlib.Core.List.{append_assoc, append-nil}
use warp_socks.Prelude.{
  ℕ, zero, suc, ◌≡◌, refl, sym, ap, ◌∙◌, List, [], ◌++◌, length, ltb, Bool-cases, inl, inr,
}
use warp_socks.Prelude.Exec.{Result, ok, err, Exec, continue, ◌>>=◌}
use warp_socks.Net.{Client, IoError, read_exact, write_all, write_on}

-- the action added the bytes `w` to what was sent, and `Q` holds of its result and of them
abbrev pub Talks {ℓ κ} :
    {E : Type ℓ} {A : Type κ}
    → (Result E A → List ℕ → Type 0)
    → Client
    → Result E A × Client
    → Type 0
Talks Q c r = (w : List ℕ) × (r.1.output ≡ c.output ++ w) × Q r.0 w

module _ {ℓ} {E : Type ℓ} where
  pub Talks-bind {κ μ} :
      {A : Type κ} {B : Type μ} (Q : Result E A → List ℕ → Type 0)
      (R : Result E B → List ℕ → Type 0) (m : Exec Client E A) (f : A → Exec Client E B)
      (c : Client)
      → Talks Q c (m c)
      → ((a : A) (c' : Client) (w : List ℕ)
          → Q (ok a) w
          → Talks (λ r w'. R r (w ++ w')) c' (f a c'))
      → ((e : E) (w : List ℕ) → Q (err e) w → R (err e) w)
      → Talks R c ((m >>= f) c)
  Talks-bind {A} Q R m f c t onward stop = go (m c) t
    where
      go : (r : Result E A × Client) → Talks Q c r → Talks R c (continue r.0 f r.1)
      go (ok a, c') (w, e, q) =
          let (w', e', q') = onward a c' w q in
          (w ++ w', e' ∙ ap (λ t. t ++ w') e ∙ append_assoc c.output w w', q')
      go (err x, c') (w, e, q) = (w, e, stop x w q)

  -- an action that says the same of what it sends, with a weaker property
  pub Talks-weaken {κ} :
      {A : Type κ} (Q R : Result E A → List ℕ → Type 0) (c : Client) (r : Result E A × Client)
      → Talks Q c r
      → ((x : Result E A) (w : List ℕ) → Q x w → R x w)
      → Talks R c r
  Talks-weaken Q R c r (w, e, q) h = (w, e, h r.0 w q)

module _ {ℓ} {E : Type ℓ} (io : IoError → E) where
  -- reading sends nothing
  pub Talks-read_exact :
      (n : ℕ) (c : Client) → Talks {A = List ℕ} (λ r w. w ≡ []) c (read_exact io n c)
  unfolding read_exact
  Talks-read_exact n c = elim (Bool-cases (ltb (length c.input) n)) [
    | inl short ↦ rw short ([], sym (append-nil c.output), refl)
    | inr enough ↦ rw enough ([], sym (append-nil c.output), refl)
  ]

  -- a write sends all of its bytes, or fails and sends none
  abbrev pub Wrote : List ℕ → Result E (Unit {0}) → List ℕ → Type 0
  Wrote bytes (ok _) w = w ≡ bytes
  Wrote bytes (err _) w = w ≡ []

  pub Talks-write_all : (bytes : List ℕ) (c : Client) → Talks (Wrote bytes) c (write_all io bytes c)
  unfolding write_all
  Talks-write_all bytes c = go c.writes
    where
      go : (k : ℕ) → Talks (Wrote bytes) c (write_on io bytes k c)
      go zero = ([], sym (append-nil c.output), refl)
      go (suc k) = (bytes, refl, refl)
