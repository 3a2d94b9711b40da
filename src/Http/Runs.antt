-- ===== src/Http/Runs.antt =====
-- Requests and their headers at concrete inputs.
use warp_socks.Prelude.{
  ℕ, ◌≡◌, refl, List, [], ◌∷◌, Option, none, some, Bool, true, false, if◌then◌else◌,
}
use warp_socks.Prelude.Exec.{ok}
use warp_socks.Prelude.Utf8.{bytes_eq}
use warp_socks.Net.{IpAddr, Host, Host_parse}
use warp_socks.Http.{
  Authority, HeaderMap, Request, connection, get, get_all, host_name, serve, target, upgrade,
  upstream_headers,
}
use warp_socks.Http.Headers.{get_all-upstream_headers, passed_on}
use warp_socks.Http.Target.{IsServed, serve-IsServed}

abbrev keep : List ℕ
keep = b'k' ∷ []

abbrev site : List ℕ
site = b's' ∷ []

-- `Connection: K` beside the header `k` that it names
abbrev headers : HeaderMap
headers = (host_name, site) ∷ (connection, b'K' ∷ []) ∷ (keep, 1 ∷ []) ∷ (site, 2 ∷ []) ∷ []

dropped : get_all keep (upstream_headers headers site) ≡ []
unfolding upstream_headers get_all
dropped = refl

get_all-upstream_headers_example :
    get_all keep (upstream_headers headers site)
    ≡ (if bytes_eq host_name keep then site ∷ [] else passed_on headers (get upgrade headers) keep)
get_all-upstream_headers_example = get_all-upstream_headers headers site keep

abbrev no_ip : List ℕ → Option IpAddr
no_ip text = none

abbrev plain_authority : List ℕ → Option Authority
plain_authority text = some (record { text = text; host = text; port = none })

abbrev asks : Request
asks = record { is_connect = false; scheme = none; authority = none; headers = headers }

abbrev dials : Host → ℕ → Bool
dials host port = true

abbrev answers : HeaderMap → Option (ℕ × HeaderMap)
answers sent = some (200, [])

serve-IsServed_example :
    IsServed dials true
      (λ v. true)
      answers
      no_ip
      plain_authority
      asks
      (serve dials true (λ v. true) answers no_ip plain_authority asks)
serve-IsServed_example = serve-IsServed dials true (λ v. true) answers no_ip plain_authority asks

accepted : target no_ip plain_authority asks ≡ ok (Host_parse no_ip site, 80, site)
unfolding target
accepted = refl
