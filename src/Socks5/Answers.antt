-- ===== src/Socks5/Answers.antt =====
-- What a SOCKS5 client is sent by a whole handshake, over what each part of it sends.
use mathlib.Core.List.{append-nil}
use warp_socks.Prelude.{
  ℕ, ◌≡◌, ◌⊎◌, refl, sym, ap, ◌∙◌, List, [], ◌∷◌, ◌++◌, Option, none, some, Bool, true, false,
  Option-cases, inl, inr,
}
use warp_socks.Prelude.Exec.{Result, ok, err, ◌>>=◌, pure, raise}
use warp_socks.Prelude.Bytes.{to_be16}
use warp_socks.Net.{IpAddr, SocketAddr, Host, Client, write_all}
use warp_socks.Net.Talk.{Talks, Talks-bind, Talks-weaken, Talks-write_all, Wrote}
use warp_socks.Socks5.{
  Error, io, connect_failed, udp_unsupported, Target, Request, connect, udp_associate, reply,
  reply_bytes, reply_with_addr, address_bytes, rep_succeeded, rep_host_unreachable,
  rep_cmd_not_supported, read_request, handle_connect, handle_udp_associate, Outcome, tunnel,
  association, serve_request, handle_client,
}
use warp_socks.Socks5.Requests.{
  Rejection, cut_short, refused, Asked, Asked-read_request, Talks-refuse,
}
use warp_socks.Socks5.Replies.{Refusal, unreachable, no_command}

abbrev Bound : Option SocketAddr → Result Error SocketAddr → List ℕ → Type 0
Bound relay (ok a) w =
    (relay ≡ some a) × (w ≡ 0x05 ∷ 0x00 ∷ 0x00 ∷ (address_bytes a.ip ++ to_be16 a.port))
Bound relay (err _) w = (w ≡ []) ⊎ Refusal w

Bound-handle_udp_associate :
    (supports_udp : Bool) (relay : Option SocketAddr) (c : Client)
    → Talks (Bound relay) c (handle_udp_associate supports_udp relay c)
unfolding handle_udp_associate reply reply_with_addr
Bound-handle_udp_associate false relay c =
    Talks-bind (Wrote io (reply_bytes rep_cmd_not_supported)) (Bound relay)
      (write_all io (reply_bytes rep_cmd_not_supported)) (λ _. raise udp_unsupported) c
      (Talks-write_all io (reply_bytes rep_cmd_not_supported) c)
      (λ _ c' w e. ([], sym (append-nil c'.output), inr (rw (append-nil w, e) no_command)))
      (λ _ w e. inl e)
Bound-handle_udp_associate true none c = ([], sym (append-nil c.output), inl refl)
Bound-handle_udp_associate true (some a) c =
    Talks-bind (Wrote io success) (Bound (some a)) (write_all io success) (λ _. pure a) c
      (Talks-write_all io success c)
      (λ _ c' w e. ([], sym (append-nil c'.output), (refl, append-nil w ∙ e))) (λ _ w e. inl e)
  where
    success : List ℕ
    success = 0x05 ∷ 0x00 ∷ 0x00 ∷ (address_bytes a.ip ++ to_be16 a.port)

module _ {Conn : Type 0} (dial : Host → ℕ → Option Conn) (relay : Option SocketAddr) where
  -- What a client has been sent when its handshake is over. A reply of success stands for an
  -- upstream that was dialled, or for a relay socket that was bound.
  abbrev pub Answered : Result Error (Outcome Conn) → List ℕ → Type 0
  Answered (ok (tunnel target conn)) w =
      (dial target.host target.port ≡ some conn) × (w ≡ 0x05 ∷ 0x00 ∷ reply_bytes rep_succeeded)
  Answered (ok (association a)) w =
      (relay ≡ some a)
      × (w ≡ 0x05 ∷ 0x00 ∷ 0x05 ∷ 0x00 ∷ 0x00 ∷ (address_bytes a.ip ++ to_be16 a.port))
  Answered (err _) w = Rejection w

  -- the part of an answer that follows the request
  abbrev Served : Result Error (Outcome Conn) → List ℕ → Type 0
  Served (ok (tunnel target conn)) w =
      (dial target.host target.port ≡ some conn) × (w ≡ reply_bytes rep_succeeded)
  Served (ok (association a)) w =
      (relay ≡ some a) × (w ≡ 0x05 ∷ 0x00 ∷ 0x00 ∷ (address_bytes a.ip ++ to_be16 a.port))
  Served (err _) w = (w ≡ []) ⊎ Refusal w

  Served-Answered :
      (r : Result Error (Outcome Conn)) (w : List ℕ) → Served r w → Answered r (0x05 ∷ 0x00 ∷ w)
  Served-Answered (ok (tunnel target conn)) w (d, e) = (d, ap (λ t. 0x05 ∷ 0x00 ∷ t) e)
  Served-Answered (ok (association a)) w (d, e) = (d, ap (λ t. 0x05 ∷ 0x00 ∷ t) e)
  Served-Answered (err x) w (inl e) = rw e cut_short
  Served-Answered (err x) w (inr r) = refused w r

  abbrev Dialled : Target → Result Error Conn → List ℕ → Type 0
  Dialled target (ok conn) w =
      (dial target.host target.port ≡ some conn) × (w ≡ reply_bytes rep_succeeded)
  Dialled target (err _) w = (w ≡ []) ⊎ Refusal w

  Dialled-handle_connect :
      (target : Target) (c : Client) → Talks (Dialled target) c (handle_connect dial target c)
  unfolding handle_connect reply
  Dialled-handle_connect target c = elim (Option-cases (dial target.host target.port)) [
    | inl failed ↦
        rw (failed, handle_connect)
          (Talks-refuse (Dialled target) (reply_bytes rep_host_unreachable) connect_failed c
            (inl refl) (inr unreachable))
    | inr (conn, dialled) ↦
        rw (dialled, handle_connect)
          (Talks-bind (Wrote io (reply_bytes rep_succeeded)) (Dialled target)
            (write_all io (reply_bytes rep_succeeded)) (λ _. pure conn) c
            (Talks-write_all io (reply_bytes rep_succeeded) c)
            (λ _ c' w e. ([], sym (append-nil c'.output), (dialled, append-nil w ∙ e)))
            (λ _ w e. inl e))
  ]

  Served-connect :
      (target : Target) (c : Client)
      → Talks Served c
          ((handle_connect dial target >>= λ conn. pure {E = Error} (tunnel target conn)) c)
  Served-connect target c =
      Talks-bind (Dialled target) Served (handle_connect dial target)
        (λ conn. pure (tunnel target conn)) c (Dialled-handle_connect target c)
        (λ conn c' w (d, e). ([], sym (append-nil c'.output), (d, append-nil w ∙ e))) (λ _ w q. q)

  Served-serve_request :
      (supports_udp : Bool) (request : Request) (c : Client)
      → Talks Served c (serve_request dial supports_udp relay request c)
  unfolding serve_request
  Served-serve_request supports_udp (connect target) c = Served-connect target c
  Served-serve_request supports_udp udp_associate c =
      Talks-bind (Bound relay) Served (handle_udp_associate supports_udp relay)
        (λ a. pure (association a)) c (Bound-handle_udp_associate supports_udp relay c)
        (λ a c' w (d, e). ([], sym (append-nil c'.output), (d, append-nil w ∙ e))) (λ _ w q. q)

  -- Whatever bytes a client sends, and whenever it leaves, the handshake ends in one of these ways:
  -- with a tunnel, and then the dial of its target gave the connection and the client was sent the
  -- accepted method and one reply of success; with an association, and then the reply has the bound
  -- relay's address; or with an error, and then the client was sent nothing, the refusal of its
  -- methods, the accepted method, or that and one of the replies 4, 7 and 8.
  pub handle_client-Answered :
      (parse_ip : List ℕ → Option IpAddr) (supports_udp : Bool) (c : Client)
      → Talks Answered c (handle_client dial parse_ip supports_udp relay c)
  unfolding handle_client
  handle_client-Answered parse_ip supports_udp c =
      Talks-bind Asked Answered (read_request parse_ip) (serve_request dial supports_udp relay) c
        (Asked-read_request parse_ip c)
        (λ request c' w e.
          Talks-weaken Served (λ r w'. Answered r (w ++ w')) c'
            (serve_request dial supports_udp relay request c')
            (Served-serve_request supports_udp request c') λ r w' q. rw e (Served-Answered r w' q))
        (λ _ w q. q)
