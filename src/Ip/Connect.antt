-- ===== src/Ip/Connect.antt =====
-- `connect_tcp` of a name with an address that answers.
use warp_socks.Prelude.{ℕ, ◌⊎◌, inl, inr, ◌≡◌, refl, List, Option, some, Bool, true, false, map}
use warp_socks.Prelude.Exec.{Result, ok, err}
use warp_socks.Net.{IpAddr, SocketAddr, domain}
use warp_socks.Dns.{RecordType, a, aaaa}
use warp_socks.Ip.{
  TcpError, FamilyError, family, pick, first_connected, connect_within, connect_tcp,
}
use warp_socks.Ip.Order.{IsAmong, connect_first_live}

module _ {E D T : Type 0} (resolve : List ℕ → RecordType → Result E (List IpAddr))
    (dial : RecordType → ℕ → SocketAddr → Option (Result D T))
    (second : RecordType → ℕ → Bool) where
  Connected : Result (TcpError E D) (T × SocketAddr) → Type 0
  Connected r = (found : T × SocketAddr) × (r ≡ ok found)

  first_connected_either :
      (sooner later : Result (FamilyError E D) (T × SocketAddr)) (found : T × SocketAddr)
      → (sooner ≡ ok found) ⊎ (later ≡ ok found)
      → Connected (first_connected resolve dial second sooner later)
  unfolding Connected
  first_connected_either (ok other) later found h = (other, refl)
  first_connected_either (err e) later found (inl h) = cc
  first_connected_either (err e) later found (inr h) = (found, rw h refl)

  family_live :
      (name : List ℕ) (port : ℕ) (record_type : RecordType) (is : List IpAddr) (target : SocketAddr)
      → resolve name record_type ≡ ok is
      → IsAmong target (map (λ i. record { ip = i; port = port }) is)
      → ((k : ℕ) → (stream : T) × (dial record_type k target ≡ some (ok stream)))
      → (found : T × SocketAddr) × (family resolve dial second name port record_type ≡ ok found)
  unfolding family
  family_live name port record_type is target resolves among answers =
      let (found, e) =
        connect_first_live (dial record_type) (second record_type)
          (map (λ i. record { ip = i; port = port }) is) target among answers in
      (found, rw (resolves, family, e) refl)

  either_family :
      (aaaa_first : Bool) (name : List ℕ) (port : ℕ) (record_type : RecordType)
      (found : T × SocketAddr)
      → family resolve dial second name port record_type ≡ ok found
      → (family resolve dial second name port ((pick aaaa_first a aaaa).0) ≡ ok found)
        ⊎ (family resolve dial second name port ((pick aaaa_first a aaaa).1) ≡ ok found)
  either_family true name port a found e = inr e
  either_family true name port aaaa found e = inl e
  either_family false name port a found e = inl e
  either_family false name port aaaa found e = inr e

  -- If the budget does not pass first, and the lookup of one record type gives an address that answers
  -- whenever it is dialled, then `connect_tcp` returns a stream, whichever family ends first and whatever
  -- becomes of the other one.
  pub connect_tcp_live :
      (aaaa_first : Bool) (direct : SocketAddr → Result D T) (name : List ℕ) (port : ℕ)
      (record_type : RecordType) (is : List IpAddr) (target : SocketAddr)
      → resolve name record_type ≡ ok is
      → IsAmong target (map (λ i. record { ip = i; port = port }) is)
      → ((k : ℕ) → (stream : T) × (dial record_type k target ≡ some (ok stream)))
      → (found : T × SocketAddr) × (connect_tcp resolve dial second false aaaa_first direct
            (domain name)
            port
          ≡ ok found)
  unfolding connect_tcp connect_within Connected
  connect_tcp_live aaaa_first direct name port record_type is target resolves among answers =
      let (found, e) = family_live name port record_type is target resolves among answers in
      first_connected_either (family resolve dial second name port ((pick aaaa_first a aaaa).0))
        (family resolve dial second name port ((pick aaaa_first a aaaa).1)) found
        (either_family aaaa_first name port record_type found e)
