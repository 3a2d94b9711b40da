-- ===== src/Socks5/Replies.antt =====
-- What a SOCKS5 client is sent: the replies of every run of the handshake.
use mathlib.Core.List.{append-nil}
use warp_socks.Prelude.{
  ℕ, ◌+◌, ◌≡◌, ◌⊎◌, refl, sym, ap, ◌∙◌, List, [], ◌++◌, Option, ◌==◌, if◌then◌else◌, Bool-cases,
  inl, inr,
}
use warp_socks.Prelude.Utf8.{is_utf8}
use warp_socks.Prelude.Exec.{Result, ok, err, Exec, ◌>>=◌, pure, raise}
use warp_socks.Net.{IpAddr, v4, v6, ip, Host_parse, Client, read_exact}
use warp_socks.Net.Talk.{Talks, Talks-bind, Talks-read_exact}
use warp_socks.Socks5.{
  Error, io, unsupported_atyp, name_not_utf8, Target, reply_bytes, rep_host_unreachable,
  rep_cmd_not_supported, rep_atyp_not_supported, byte_at, read_target, read_v4, read_v6, port_of,
  read_name, skip_target, skip_name,
}

-- one of the three refusals a request can meet
pub data Refusal : List ℕ → Type 0 where
  unreachable : Refusal (reply_bytes rep_host_unreachable)
  no_command : Refusal (reply_bytes rep_cmd_not_supported)
  no_atyp : Refusal (reply_bytes rep_atyp_not_supported)

abbrev pub Silent {ℓ} : {A : Type ℓ} → Result Error A → List ℕ → Type 0
Silent r w = w ≡ []

-- nothing is sent on success, and nothing or a refusal on failure
abbrev pub Quiet {ℓ} : {A : Type ℓ} → Result Error A → List ℕ → Type 0
Quiet (ok _) w = w ≡ []
Quiet (err _) w = (w ≡ []) ⊎ Refusal w

pub Quiet-Silent {ℓ} : {A : Type ℓ} (r : Result Error A) (w : List ℕ) → w ≡ [] → Quiet r w
Quiet-Silent (ok _) w e = e
Quiet-Silent (err _) w e = inl e

pub Silent-raise {ℓ} : (A : Type ℓ) (e : Error) (c : Client) → Talks Silent c (raise {A = A} e c)
Silent-raise A e c = ([], sym (append-nil c.output), refl)

-- a read, and then what is silent on the bytes that were read
Silent-read {ℓ} :
    {A : Type ℓ} (n : ℕ) (f : List ℕ → Exec Client Error A)
    → ((a : List ℕ) (c' : Client) → Talks Silent c' (f a c'))
    → (c : Client) → Talks Silent c ((read_exact io n >>= f) c)
Silent-read n f h c =
    Talks-bind Silent Silent (read_exact io n) f c (Talks-read_exact io n c)
      (λ a c' w e. let (w', e', q) = h a c' in (w', e', ap (λ t. t ++ w') e ∙ q)) (λ x w e. e)

Silent-read_v4 : (c : Client) → Talks Silent c (read_v4 c)
unfolding read_v4
Silent-read_v4 =
    Silent-read 4
      (λ addr. do
        port ← read_exact io 2
        pure (record { host = ip (v4 addr); port = port_of port }))
      λ addr.
        Silent-read 2 (λ port. pure (record { host = ip (v4 addr); port = port_of port }))
          λ port c. ([], sym (append-nil c.output), refl)

Silent-read_v6 : (c : Client) → Talks Silent c (read_v6 c)
unfolding read_v6
Silent-read_v6 =
    Silent-read 16
      (λ addr. do
        port ← read_exact io 2
        pure (record { host = ip (v6 addr); port = port_of port }))
      λ addr.
        Silent-read 2 (λ port. pure (record { host = ip (v6 addr); port = port_of port }))
          λ port c. ([], sym (append-nil c.output), refl)

Silent-skip :
    (n : ℕ) (c : Client) → Talks {A = Unit {0}} Silent c ((read_exact io n >>= (λ _. pure tt)) c)
Silent-skip n = Silent-read n (λ _. pure tt) λ _ c. ([], sym (append-nil c.output), refl)

pub Silent-skip_target : (atyp : ℕ) (c : Client) → Talks Silent c (skip_target atyp c)
unfolding skip_target skip_name
Silent-skip_target atyp c = elim (Bool-cases (atyp == 0x01)) [
  | inl is_v4 ↦ rw is_v4 (Silent-skip (4 + 2) c)
  | inr not_v4 ↦ elim (Bool-cases (atyp == 0x04)) [
    | inl is_v6 ↦ rw (not_v4, is_v6) (Silent-skip (16 + 2) c)
    | inr not_v6 ↦ elim (Bool-cases (atyp == 0x03)) [
      | inl is_name ↦
          rw (not_v4, not_v6, is_name)
            (Silent-read 1 (λ len. do _ ← read_exact io (byte_at len 0 + 2); pure tt)
              (λ len. Silent-skip (byte_at len 0 + 2)) c)
      | inr other ↦ rw (not_v4, not_v6, other) (Silent-raise (Unit {0}) (unsupported_atyp atyp) c)
    ]
  ]
]

module _ (parse_ip : List ℕ → Option IpAddr) where
  name_target : List ℕ → List ℕ → Exec Client Error Target
  name_target name port =
      if is_utf8 name
      then pure (record { host = Host_parse parse_ip name; port = port_of port })
      else raise name_not_utf8

  Silent-name_target : (name port : List ℕ) (c : Client) → Talks Silent c (name_target name port c)
  unfolding name_target
  Silent-name_target name port c = elim (Bool-cases (is_utf8 name)) [
    | inl text ↦ rw text ([], sym (append-nil c.output), refl)
    | inr not_text ↦ rw not_text ([], sym (append-nil c.output), refl)
  ]

  Silent-read_name : (c : Client) → Talks Silent c (read_name parse_ip c)
  unfolding read_name name_target
  Silent-read_name =
      Silent-read 1
        (λ len. do
          name ← read_exact io (byte_at len 0)
          port ← read_exact io 2
          name_target name port)
        λ len.
          Silent-read (byte_at len 0) (λ name. do port ← read_exact io 2; name_target name port)
            λ name.
              Silent-read 2 (λ port. name_target name port) λ port. Silent-name_target name port

  pub Silent-read_target : (atyp : ℕ) (c : Client) → Talks Silent c (read_target parse_ip atyp c)
  unfolding read_target
  Silent-read_target atyp c = elim (Bool-cases (atyp == 0x01)) [
    | inl is_v4 ↦ rw is_v4 (Silent-read_v4 c)
    | inr not_v4 ↦ elim (Bool-cases (atyp == 0x04)) [
      | inl is_v6 ↦ rw (not_v4, is_v6) (Silent-read_v6 c)
      | inr not_v6 ↦ elim (Bool-cases (atyp == 0x03)) [
        | inl is_name ↦ rw (not_v4, not_v6, is_name) (Silent-read_name c)
        | inr other ↦ rw (not_v4, not_v6, other) (Silent-raise Target (unsupported_atyp atyp) c)
      ]
    ]
  ]
