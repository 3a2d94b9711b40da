-- ===== src/Ip/Runs.antt =====
-- Targets and dials at concrete inputs.
use warp_socks.Prelude.{
  ℕ, ◌≡◌, refl, List, [], ◌∷◌, Option, none, some, Bool, true, false, inl, inr, if◌then◌else◌,
}
use warp_socks.Prelude.Exec.{Result, ok, err}
use warp_socks.Net.{IpAddr, v4, v6, SocketAddr, domain}
use warp_socks.Dns.{RecordType, a, aaaa}
use warp_socks.Ip.{
  connect_first, connect_tcp, enumerate_from, interleave_addresses, resolve_targets, is_v4, is_v6,
}
use warp_socks.Ip.Connect.{connect_tcp_live}
use warp_socks.Ip.Order.{interleave_addresses-filter}
use warp_socks.Ip.Race.{Raced, connect_first-Raced}
use warp_socks.Ip.Targets.{IsResolved, resolve_targets-IsResolved}
use warp_socks.Prelude.{filter}

abbrev four : ℕ → IpAddr
four n = v4 (10 ∷ 0 ∷ 0 ∷ n ∷ [])

abbrev six : ℕ → IpAddr
six n = v6 (0xfd ∷ 0 ∷ 0 ∷ 0 ∷ 0 ∷ 0 ∷ 0 ∷ 0 ∷ 0 ∷ 0 ∷ 0 ∷ 0 ∷ 0 ∷ 0 ∷ 0 ∷ n ∷ [])

abbrev at : IpAddr → SocketAddr
at i = record { ip = i; port = 443 }

abbrev lookup : List ℕ → RecordType → Result ℕ (List IpAddr)
lookup name a = ok (four 1 ∷ four 2 ∷ four 1 ∷ [])
lookup name aaaa = ok (six 1 ∷ [])

-- every dial of an address of IPv6 times out, and those of IPv4 give a stream numbered by the last byte
abbrev dial : ℕ → SocketAddr → Option (Result ℕ ℕ)
dial k target = if is_v4 target then some (ok 7) else none

abbrev mixed : List SocketAddr
mixed = at (six 1) ∷ at (six 2) ∷ at (six 3) ∷ at (four 1) ∷ []

abbrev older_first : ℕ → Bool
older_first k = false

connect_first-Raced_example :
    Raced dial 0
      (enumerate_from 0 (interleave_addresses mixed))
      (connect_first dial older_first mixed)
connect_first-Raced_example = connect_first-Raced dial older_first mixed

interleave_addresses-filter_example :
    (filter is_v4 (interleave_addresses mixed) ≡ filter is_v4 mixed)
    × (filter is_v6 (interleave_addresses mixed) ≡ filter is_v6 mixed)
interleave_addresses-filter_example = interleave_addresses-filter mixed

resolve_targets-IsResolved_example :
    IsResolved lookup (b'a' ∷ []) 443 (resolve_targets lookup (domain (b'a' ∷ [])) 443)
resolve_targets-IsResolved_example = resolve_targets-IsResolved lookup (b'a' ∷ []) 443

connect_tcp_live_example :
    (found : ℕ × SocketAddr) × (connect_tcp lookup
        (λ r. dial)
        (λ r. older_first)
        false
        true
        (λ target. err 0)
        (domain (b'a' ∷ []))
        443
      ≡ ok found)
connect_tcp_live_example =
    connect_tcp_live lookup (λ r. dial) (λ r. older_first) true (λ target. err 0) (b'a' ∷ []) 443 a
      (four 1 ∷ four 2 ∷ four 1 ∷ []) (at (four 2)) refl (inr (inl refl)) (λ k. (7, refl))
