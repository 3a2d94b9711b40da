-- ===== src/Socks5/Requests.antt =====
-- What a SOCKS5 client is sent while its request is read.
use mathlib.Core.List.{append-nil}
use warp_socks.Prelude.{
  ℕ, zero, suc, ◌≡◌, ◌⊎◌, refl, sym, ap, ◌∙◌, List, [], ◌∷◌, ◌++◌, Option, not, ◌||◌, ◌==◌,
  if◌then◌else◌, Bool-cases, inl, inr,
}
use warp_socks.Prelude.Exec.{Result, ok, err, Exec, ◌>>=◌, ◌>>◌, pure, raise, ignoring}
use warp_socks.Net.{IpAddr, Client, read_exact, write_all, write_on}
use warp_socks.Net.Talk.{Talks, Talks-bind, Talks-weaken, Talks-read_exact}
use warp_socks.Socks5.{
  Error, io, bad_version, no_method, unsupported_command, unsupported_atyp, Target, Request,
  udp_associate, reply, reply_bytes, rep_host_unreachable, rep_cmd_not_supported,
  rep_atyp_not_supported, cmd_connect, cmd_udp_associate, byte_at, contains_zero, read_target,
  skip_target, connect_request, check_methods, negotiate, command, read_request,
}
use warp_socks.Socks5.Replies.{
  Refusal, unreachable, no_command, no_atyp, Silent, Quiet, Silent-skip_target, Silent-read_target,
}

-- a refusal is sent whole or not at all, and the request's own error is passed on
pub Talks-refuse {ℓ} :
    {A : Type ℓ} (Q : Result Error A → List ℕ → Type 0) (v : List ℕ) (e : Error) (c : Client)
    → Q (err e) []
    → Q (err e) v
    → Talks Q c (ignoring (write_all io v) (raise {A = A} e) c)
unfolding write_all write_on
Talks-refuse {A} Q v e c unsent sent = go c.writes
  where
    go : (k : ℕ) → Talks Q c (ignoring (λ c'. write_on io v k c') (raise {A = A} e) c)
    go zero = ([], sym (append-nil c.output), unsent)
    go (suc k) = (v, refl, sent)

Quiet-refuse {ℓ} :
    (A : Type ℓ) (v : List ℕ)
    → Refusal v
    → (e : Error) (c : Client) → Talks Quiet c (ignoring (write_all io v) (raise {A = A} e) c)
Quiet-refuse A v r e c = Talks-refuse {A = A} Quiet v e c (inl refl) (inr r)

Quiet-connect_request : (r : Result Error Target) (c : Client) → Talks Quiet c (connect_request r c)
unfolding connect_request reply
Quiet-connect_request (ok target) c = ([], sym (append-nil c.output), refl)
Quiet-connect_request (err e) c =
    Quiet-refuse Request (reply_bytes rep_host_unreachable) unreachable e c

module _ (parse_ip : List ℕ → Option IpAddr) where
  Quiet-connect :
      (atyp : ℕ) (c : Client)
      → Talks Quiet c
          (connect_request (read_target parse_ip atyp c).0 (read_target parse_ip atyp c).1)
  Quiet-connect atyp c =
      let (w, sent, silent) = Silent-read_target parse_ip atyp c in
      let (w', sent', q) =
        Quiet-connect_request (read_target parse_ip atyp c).0 (read_target parse_ip atyp c).1 in
      (
        w',
        sent' ∙ ap (λ t. t ++ w') (sent ∙ ap (λ t. c.output ++ t) silent ∙ append-nil c.output),
        q,
      )

  Quiet-command : (req : List ℕ) (c : Client) → Talks Quiet c (command parse_ip req c)
  unfolding command reply
  Quiet-command req c = elim (Bool-cases (byte_at req 0 == 0x05)) [
    | inr other ↦ rw other ([], sym (append-nil c.output), inl refl)
    | inl version ↦
        elim (Bool-cases (byte_at req 1 == cmd_connect || byte_at req 1 == cmd_udp_associate)) [
          | inr other ↦
              rw (version, other)
                (Quiet-refuse Request (reply_bytes rep_cmd_not_supported) no_command
                  (unsupported_command (byte_at req 1)) c)
          | inl known ↦
              elim (Bool-cases
                (byte_at req 3 == 0x01 || byte_at req 3 == 0x03 || byte_at req 3 == 0x04)) [
                  | inr other ↦
                      rw (version, known, other)
                        (Quiet-refuse Request (reply_bytes rep_atyp_not_supported) no_atyp
                          (unsupported_atyp (byte_at req 3)) c)
                  | inl address ↦ elim (Bool-cases (byte_at req 1 == cmd_udp_associate)) [
                    | inl udp ↦
                        rw (version, known, address, udp)
                          (Talks-bind Silent Quiet (skip_target (byte_at req 3))
                            (λ _. pure udp_associate) c (Silent-skip_target (byte_at req 3) c)
                            (λ _ c' w e. ([], sym (append-nil c'.output), append-nil w ∙ e))
                            (λ _ w e. inl e))
                    | inr tcp ↦ rw (version, known, address, tcp) (Quiet-connect (byte_at req 3) c)
                  ]
                ]
        ]
  ]

-- what the method negotiation sends
abbrev Chosen : Result Error (Unit {0}) → List ℕ → Type 0
Chosen (ok _) w = w ≡ 0x05 ∷ 0x00 ∷ []
Chosen (err _) w = (w ≡ []) ⊎ (w ≡ 0x05 ∷ 0xff ∷ [])

Chosen-check_methods : (methods : List ℕ) (c : Client) → Talks Chosen c (check_methods methods c)
unfolding check_methods write_all write_on
Chosen-check_methods methods c = elim (Bool-cases (contains_zero methods)) [
  | inl offered ↦ rw offered (accept c.writes)
  | inr missing ↦ rw missing (refuse c.writes)
]
  where
    accept : (k : ℕ) → Talks Chosen c (write_on io (0x05 ∷ 0x00 ∷ []) k c)
    accept zero = ([], sym (append-nil c.output), inl refl)
    accept (suc k) = (0x05 ∷ 0x00 ∷ [], refl, refl)

    refuse :
        (k : ℕ)
        → Talks Chosen c (((λ c'. write_on io (0x05 ∷ 0xff ∷ []) k c') >> raise no_method) c)
    refuse zero = ([], sym (append-nil c.output), inl refl)
    refuse (suc k) = (0x05 ∷ 0xff ∷ [], refl, inr refl)

abbrev offer : List ℕ → Exec Client Error (Unit {0})
offer head =
    if not (byte_at head 0 == 0x05)
    then raise (bad_version (byte_at head 0))
    else (read_exact io (byte_at head 1) >>= check_methods)

Chosen-offer : (head : List ℕ) (c : Client) → Talks Chosen c (offer head c)
Chosen-offer head c = elim (Bool-cases (byte_at head 0 == 0x05)) [
  | inr other ↦ rw other ([], sym (append-nil c.output), inl refl)
  | inl version ↦ rw version (
      Talks-bind Silent Chosen (read_exact io (byte_at head 1)) check_methods c
        (Talks-read_exact io (byte_at head 1) c)
        (λ methods c' w e.
          Talks-weaken Chosen (λ r w'. Chosen r (w ++ w')) c' (check_methods methods c')
            (Chosen-check_methods methods c') λ r w'. rw e (λ q. q))
        (λ _ w e. inl e))
]

Chosen-negotiate : (c : Client) → Talks Chosen c (negotiate c)
unfolding negotiate
Chosen-negotiate c =
    Talks-bind Silent Chosen (read_exact io 2) offer c (Talks-read_exact io 2 c)
      (λ head c' w e.
        Talks-weaken Chosen (λ r w'. Chosen r (w ++ w')) c' (offer head c') (Chosen-offer head c')
          λ r w'. rw e (λ q. q))
      (λ _ w e. inl e)

-- what a handshake that ends with no reply of success has sent
pub data Rejection : List ℕ → Type 0 where
  silence : Rejection []
  no_acceptable_method : Rejection (0x05 ∷ 0xff ∷ [])
  cut_short : Rejection (0x05 ∷ 0x00 ∷ [])
  refused : (v : List ℕ) → Refusal v → Rejection (0x05 ∷ 0x00 ∷ v)

-- a request that was read has been sent the chosen method and nothing else
abbrev pub Asked {ℓ} : {A : Type ℓ} → Result Error A → List ℕ → Type 0
Asked (ok _) w = w ≡ 0x05 ∷ 0x00 ∷ []
Asked (err _) w = Rejection w

pub Chosen-rejected : (w : List ℕ) → (w ≡ []) ⊎ (w ≡ 0x05 ∷ 0xff ∷ []) → Rejection w
Chosen-rejected w (inl e) = rw e silence
Chosen-rejected w (inr e) = rw e no_acceptable_method

Quiet-Asked {ℓ} :
    {A : Type ℓ} (r : Result Error A) (w : List ℕ) → Quiet r w → Asked r (0x05 ∷ 0x00 ∷ w)
Quiet-Asked (ok a) w e = ap (λ t. 0x05 ∷ 0x00 ∷ t) e
Quiet-Asked (err x) w (inl e) = rw e cut_short
Quiet-Asked (err x) w (inr r) = refused w r

module _ (parse_ip : List ℕ → Option IpAddr) where
  pub Asked-read_request : (c : Client) → Talks Asked c (read_request parse_ip c)
  unfolding read_request
  Asked-read_request c =
      Talks-bind Chosen Asked negotiate (λ _. read_exact io 4 >>= command parse_ip) c
        (Chosen-negotiate c)
        (λ _ c' w e.
          Talks-weaken Quiet (λ r w'. Asked r (w ++ w')) c'
            ((read_exact io 4 >>= command parse_ip) c') (body c')
            λ r w' q. rw e (Quiet-Asked r w' q))
        (λ _ w q. Chosen-rejected w q)
    where
      body : (c : Client) → Talks Quiet c ((read_exact io 4 >>= command parse_ip) c)
      body c =
          Talks-bind Silent Quiet (read_exact io 4) (command parse_ip) c (Talks-read_exact io 4 c)
            (λ req c' w e.
              Talks-weaken Quiet (λ r w'. Quiet r (w ++ w')) c' (command parse_ip req c')
                (Quiet-command parse_ip req c') λ r w'. rw e (λ q. q))
            (λ _ w e. inl e)
