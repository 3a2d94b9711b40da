-- ===== src/Socks4/RoundTrip.antt =====
-- A SOCKS4 or SOCKS4a request on the wire is what the server reads back.
use warp_socks.Prelude.{
  ℕ, zero, suc, ◌<◌, ◌≤◌, ◌^◌, ◌/◌, ◌%◌, ◌≡◌, ◌≢◌, refl, sym, ap, ◌∙◌, List, [], ◌∷◌, ◌++◌, Option,
  false, length, ltb, ◌==◌, if◌then◌else◌, arith, All, ne→==, length-append, take-append_length,
  drop-append_length,
}
use mathlib.Core.List.{append_assoc, append-nil}
use warp_socks.Prelude.Exec.{ok, Exec, continue, ◌>>=◌, pure, raise}
use warp_socks.Prelude.Bytes.{to_be16, from_be16, from_be16-to_be16}
use warp_socks.Net.{IpAddr, Host_parse, Client, read_exact}
use warp_socks.Socks4.{
  Error, io, too_long, Target, byte_at, sentinel, read_cstring, read_target, read_address,
  check_command, read_request, max_userid_len, max_domain_len,
}

read_then {ℓ} :
    {A : Type ℓ} (n : ℕ) (f : List ℕ → Exec Client Error A) (bytes rest out : List ℕ) (k : ℕ)
    → length bytes ≡ n
    → (read_exact io n >>= f) (record { input = bytes ++ rest; output = out; writes = k })
      ≡ f bytes (record { input = rest; output = out; writes = k })
unfolding read_exact
read_then n f bytes rest out k h =
    rw (sym h, read_exact, long, take-append_length bytes rest, drop-append_length bytes rest) refl
  where
    long : ltb (length (bytes ++ rest)) (length bytes) ≡ false
    long = rw (length-append bytes rest) (ground arith)

-- A text without a zero byte, and not longer than there is room for, is read up to the zero byte that
-- ends it, and what follows stays.
pub read_cstring-append :
    (text : List ℕ) (room : ℕ) (buf rest out : List ℕ) (k : ℕ)
    → All (λ b. b ≢ 0) text
    → length text ≤ room
    → read_cstring room buf (record { input = text ++ (0 ∷ rest); output = out; writes = k })
      ≡ (ok (buf ++ text), record { input = rest; output = out; writes = k })
unfolding read_cstring
read_cstring-append [] zero buf rest out k nonzero fits =
    read_then 1 (λ b. if byte_at b 0 == 0 then pure buf else raise too_long) (0 ∷ []) rest out k
      refl
    ∙ rw (append-nil buf) refl
read_cstring-append [] (suc room) buf rest out k nonzero fits =
    read_then 1
      (λ b. if byte_at b 0 == 0 then pure buf else read_cstring room (buf ++ (byte_at b 0 ∷ [])))
      (0 ∷ []) rest out k refl
    ∙ rw (append-nil buf) refl
read_cstring-append (b ∷ text) zero buf rest out k nonzero fits = absurd (omega (arith, fits))
read_cstring-append (b ∷ text) (suc room) buf rest out k (here, nonzero) fits =
    read_then 1
      (λ b'. if byte_at b' 0 == 0 then pure buf else read_cstring room (buf ++ (byte_at b' 0 ∷ [])))
      (b ∷ []) (text ++ (0 ∷ rest)) out k refl
    ∙ rw (ne→== b 0 here) (
        read_cstring-append text room (buf ++ (b ∷ [])) rest out k nonzero (omega (arith, fits))
        ∙ rw (append_assoc buf (b ∷ []) text) refl)

-- A request for a name (SOCKS4a: the address 0.0.0.1, a user id, and a name) reads back as its target,
-- and what the client sent after it stays for the tunnel. The user id is at
-- most 1024 bytes and the name at most 253, and neither has a zero byte.
pub read_request-name :
    (lossy : List ℕ → List ℕ) (parse_ip : List ℕ → Option IpAddr) (version port : ℕ)
    (userid name rest out : List ℕ) (k : ℕ)
    → port < 2 ^ 16
    → All (λ b. b ≢ 0) userid
    → length userid ≤ 1024
    → All (λ b. b ≢ 0) name
    → length name ≤ 253
    → read_request lossy parse_ip (record {
      input = version ∷ 1 ∷ (to_be16 port ++ (sentinel ++ (userid ++ (0 ∷ (name ++ (0 ∷ rest))))));
      output = out;
      writes = k;
    })
      ≡ (
        ok (record { host = Host_parse parse_ip (lossy name); port = port }),
        record { input = rest; output = out; writes = k },
      )
unfolding read_request check_command read_address read_target
read_request-name lossy parse_ip version port userid name rest out k h good short good' short' =
    read_then 1 (λ _. read_exact io 1 >>= (λ cmd. check_command lossy parse_ip (byte_at cmd 0)))
      (version ∷ []) _ out k refl
    ∙ read_then 1 (λ cmd. check_command lossy parse_ip (byte_at cmd 0)) (1 ∷ []) _ out k refl
    ∙ read_then 2
        (λ p.
          read_exact io 4
          >>= (λ a. read_target lossy parse_ip (from_be16 (byte_at p 0) (byte_at p 1)) a))
        (to_be16 port) _ out k refl
    ∙ read_then 4 (λ a. read_target lossy parse_ip (from_be16 (port / 256 % 256) (port % 256)) a)
        sentinel _ out k refl
    ∙ ap (λ r. continue r.0 (λ _. read_cstring max_domain_len [] >>= finished) r.1)
        (read_cstring-append userid max_userid_len [] (name ++ (0 ∷ rest)) out k good short)
    ∙ ap (λ r. continue r.0 finished r.1)
        (read_cstring-append name max_domain_len [] rest out k good' short')
    ∙ rw (from_be16-to_be16 port h) refl
  where
    finished : List ℕ → Exec Client Error Target
    finished n = pure (record {
      host = Host_parse parse_ip (lossy n);
      port = from_be16 (port / 256 % 256) (port % 256);
    })
