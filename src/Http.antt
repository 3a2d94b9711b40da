-- ===== src/Http.antt =====
-- http_proxy.rs: where a request goes, which headers travel on, and what `forward` answers. The types of
-- the `http` crate are read through an argument, and so are the two HTTP/1 connections of hyper.
pub mod Headers
pub mod Target
pub mod Runs
use warp_socks.Prelude.{
  ℕ, List, [], ◌∷◌, ◌++◌, Option, none, some, Bool, true, false, not, ◌&&◌, ◌||◌, if◌then◌else◌,
  ◌==◌, length, map, leb, ltb,
}
use warp_socks.Prelude.Exec.{Result, ok, err}
use warp_socks.Prelude.Utf8.{bytes_eq, to_ascii_lowercase}
use warp_socks.Net.{IpAddr, Host, Host_parse}

-- `Authority` of the http crate: its text, its host, its port if that is a number of 16 bits
pub record Authority : Type 0 where
  pub text : List ℕ
  pub host : List ℕ
  pub port : Option ℕ

-- A header map: names in lower case, as `HeaderName` has them, with their values, of which a name may
-- have several.
abbrev pub HeaderMap : Type 0
HeaderMap = List (List ℕ × List ℕ)

pub data TargetError : Type 0 where
  not_http missing_host bad_host_text bad_host no_connect_port bad_port : TargetError

-- the parts of a request that `target` reads
pub record Request : Type 0 where
  pub is_connect : Bool
  pub scheme : Option (List ℕ)
  pub authority : Option Authority
  pub headers : HeaderMap

unfoldable pub get : List ℕ → HeaderMap → Option (List ℕ)
get name [] = none
get name ((n, value) ∷ headers) = if bytes_eq n name then some value else get name headers

abbrev pub has : List ℕ → HeaderMap → Bool
has name headers = elim (get name headers) [ none ↦ false | some value ↦ true ]

unfoldable pub trim_start : (ℕ → Bool) → List ℕ → List ℕ
trim_start p [] = []
trim_start p (b ∷ bs) = if p b then trim_start p bs else b ∷ bs

unfoldable pub trim_end : (ℕ → Bool) → List ℕ → List ℕ
trim_end p [] = []
trim_end p (b ∷ bs) =
    let rest = trim_end p bs in elim rest [ [] ↦ if p b then [] else b ∷ [] | r ∷ rs ↦ b ∷ r ∷ rs ]

unfoldable pub has_byte : ℕ → List ℕ → Bool
has_byte c [] = false
has_byte c (b ∷ bs) = b == c || has_byte c bs

abbrev pub host_name : List ℕ
host_name = b'h' ∷ b'o' ∷ b's' ∷ b't' ∷ []

abbrev pub http : List ℕ
http = b'h' ∷ b't' ∷ b't' ∷ b'p' ∷ []

abbrev other_scheme : Option (List ℕ) → Bool
other_scheme none = false
other_scheme (some s) = not (bytes_eq s http)

unfoldable pub port_of : Bool → Authority → Result TargetError ℕ
port_of true authority = elim authority.port [ none ↦ err no_connect_port | some port ↦ ok port ]
port_of false authority =
    if bytes_eq authority.text authority.host
    then ok 80
    else elim authority.port [ none ↦ err bad_port | some port ↦ ok port ]

-- `parse_authority` is `to_str` and the parser of the http crate.
module _ (parse_ip : List ℕ → Option IpAddr) (parse_authority : List ℕ → Option Authority) where
  unfoldable pub authority_of : Request → Result TargetError Authority
  unfolding get
  authority_of request = elim request.authority [
    | some authority ↦ ok authority
    | none ↦ elim (get host_name request.headers) [
      | none ↦ err missing_host
      | some value ↦ elim (parse_authority value) [
        | none ↦ err bad_host_text
        | some authority ↦ ok authority
      ]
    ]
  ]

  unfoldable pub target_at : Bool → Authority → Result TargetError (Host × ℕ × List ℕ)
  unfolding trim_start trim_end has_byte port_of
  target_at is_connect authority =
      let host = trim_end (λ b. b == b']') (trim_start (λ b. b == b'[') authority.host) in
      if length host == 0 || has_byte b'@' authority.text
      then err bad_host
      else elim (port_of is_connect authority) [
        | err e ↦ err e
        | ok port ↦
            if port == 0 then err bad_port else ok (Host_parse parse_ip host, port, authority.text)
      ]

  unfoldable pub target : Request → Result TargetError (Host × ℕ × List ℕ)
  unfolding authority_of target_at
  target request =
      if not request.is_connect && other_scheme request.scheme
      then err not_http
      else elim (authority_of request) [
        | err e ↦ err e
        | ok authority ↦ target_at request.is_connect authority
      ]

unfoldable pub remove : List ℕ → HeaderMap → HeaderMap
remove name [] = []
remove name ((n, value) ∷ headers) =
    if bytes_eq n name then remove name headers else (n, value) ∷ remove name headers

unfoldable pub remove_all : List (List ℕ) → HeaderMap → HeaderMap
unfolding remove
remove_all [] headers = headers
remove_all (name ∷ names) headers = remove_all names (remove name headers)

-- the values of one name
unfoldable pub get_all : List ℕ → HeaderMap → List (List ℕ)
get_all name [] = []
get_all name ((n, value) ∷ headers) =
    if bytes_eq n name then value ∷ get_all name headers else get_all name headers

-- `split(',')`, with the bytes of the piece that is being read
unfoldable pub split_commas : List ℕ → List ℕ → List (List ℕ)
split_commas piece [] = piece ∷ []
split_commas piece (b ∷ bs) =
    if b == b',' then piece ∷ split_commas [] bs else split_commas (piece ++ (b ∷ [])) bs

-- `HeaderValue::to_str`: visible ASCII and tabs, among which the blank is the other white space
abbrev is_text : List ℕ → Bool
is_text [] = true
is_text (b ∷ bs) = (b == 9 || leb 32 b && ltb b 127) && is_text bs

abbrev is_blank : ℕ → Bool
is_blank b = b == b' ' || b == 9

abbrev pub connection : List ℕ
connection = b'c' ∷ b'o' ∷ b'n' ∷ b'n' ∷ b'e' ∷ b'c' ∷ b't' ∷ b'i' ∷ b'o' ∷ b'n' ∷ []

abbrev pub upgrade : List ℕ
upgrade = b'u' ∷ b'p' ∷ b'g' ∷ b'r' ∷ b'a' ∷ b'd' ∷ b'e' ∷ []

-- the names that one value of a Connection header lists; a name is looked up in lower case
unfoldable pub listed_in : List ℕ → List (List ℕ)
unfolding split_commas trim_start trim_end
listed_in value =
    if is_text value
    then map (λ name. to_ascii_lowercase (trim_end is_blank (trim_start is_blank name)))
        (split_commas [] value)
    else []

unfoldable pub listed : List (List ℕ) → List (List ℕ)
unfolding listed_in
listed [] = []
listed (value ∷ values) = listed_in value ++ listed values

abbrev pub hop_names : List (List ℕ)
hop_names =
    connection
    ∷ (b'p' ∷ b'r' ∷ b'o' ∷ b'x' ∷ b'y' ∷ b'-' ∷ b'c' ∷ b'o' ∷ b'n' ∷ b'n' ∷ b'e' ∷ b'c' ∷ b't'
        ∷ b'i' ∷ b'o' ∷ b'n' ∷ [])
    ∷ (b'k' ∷ b'e' ∷ b'e' ∷ b'p' ∷ b'-' ∷ b'a' ∷ b'l' ∷ b'i' ∷ b'v' ∷ b'e' ∷ [])
    ∷ (b'p' ∷ b'r' ∷ b'o' ∷ b'x' ∷ b'y' ∷ b'-' ∷ b'a' ∷ b'u' ∷ b't' ∷ b'h' ∷ b'e' ∷ b'n' ∷ b't'
        ∷ b'i' ∷ b'c' ∷ b'a' ∷ b't' ∷ b'e' ∷ [])
    ∷ (b'p' ∷ b'r' ∷ b'o' ∷ b'x' ∷ b'y' ∷ b'-' ∷ b'a' ∷ b'u' ∷ b't' ∷ b'h' ∷ b'o' ∷ b'r' ∷ b'i'
        ∷ b'z' ∷ b'a' ∷ b't' ∷ b'i' ∷ b'o' ∷ b'n' ∷ [])
    ∷ (b't' ∷ b'e' ∷ [])
    ∷ (b't' ∷ b'r' ∷ b'a' ∷ b'i' ∷ b'l' ∷ b'e' ∷ b'r' ∷ [])
    ∷ (b't' ∷ b'r' ∷ b'a' ∷ b'n' ∷ b's' ∷ b'f' ∷ b'e' ∷ b'r' ∷ b'-' ∷ b'e' ∷ b'n' ∷ b'c' ∷ b'o'
        ∷ b'd' ∷ b'i' ∷ b'n' ∷ b'g' ∷ [])
    ∷ upgrade
    ∷ []

-- `HeaderMap::insert`
abbrev pub insert : List ℕ → List ℕ → HeaderMap → HeaderMap
insert name value headers = (name, value) ∷ remove name headers

abbrev pub with_upgrade : Option (List ℕ) → HeaderMap → HeaderMap
with_upgrade none headers = headers
with_upgrade (some value) headers = insert connection upgrade (insert upgrade value headers)

unfoldable pub strip_hop_headers : HeaderMap → Option (List ℕ) → HeaderMap
unfolding remove_all get_all listed
strip_hop_headers headers requested =
    with_upgrade requested
      (remove_all hop_names (remove_all (listed (get_all connection headers)) headers))

-- the headers that the target gets
unfoldable pub upstream_headers : HeaderMap → List ℕ → HeaderMap
unfolding strip_hop_headers get
upstream_headers headers authority =
    insert host_name authority (strip_hop_headers headers (get upgrade headers))

-- An answer to the client, and the tunnel that takes over the connection behind it, if any.
pub data Body : Type 0 where
  no_body proxy_request_failed upstream_body : Body

pub record Response : Type 0 where
  pub status : ℕ
  pub headers : HeaderMap
  pub body : Body

pub data Tunnel : Type 0 where
  connect_tunnel upgrade_tunnel : List ℕ → Tunnel

abbrev pub error_response : ℕ → Response
error_response status = record { status = status; headers = []; body = proxy_request_failed }

-- what `forward` fails with, for which the client gets a 502
pub data ForwardError : Type 0 where
  dial_failed repeated_upgrade bad_authority upstream_failed unrequested_upgrade : ForwardError

-- `free`: whether the connection has no tunnel yet
module _ (free : Bool) where
  unfoldable pub tunnelled : Tunnel → Response → Result ForwardError (Response × Option Tunnel)
  tunnelled tunnel response = if free then ok (response, some tunnel) else err repeated_upgrade

  unfoldable pub relayed :
      Bool → List ℕ → ℕ × HeaderMap → Result ForwardError (Response × Option Tunnel)
  unfolding tunnelled get strip_hop_headers
  relayed asked authority (status, headers) =
      if not (status == 101)
      then ok (
        record { status = status; headers = strip_hop_headers headers none; body = upstream_body },
        none,
      )
      else if asked
      then tunnelled (upgrade_tunnel authority) (record {
        status = status;
        headers = strip_hop_headers headers (get upgrade headers);
        body = no_body;
      })
      else err unrequested_upgrade

-- `dials`: whether the dial succeeds; `as_value`: whether the authority is a header value; `send`: the
-- upstream's answer to the headers it is sent, or none, also where the rewritten URI does not parse.
module _ (dials : Host → ℕ → Bool) (free : Bool) (as_value : List ℕ → Bool)
    (send : HeaderMap → Option (ℕ × HeaderMap)) where
  unfoldable pub forward_to :
      Request → Host × ℕ × List ℕ → Result ForwardError (Response × Option Tunnel)
  unfolding relayed upstream_headers
  forward_to request (host, port, authority) =
      if not (dials host port)
      then err dial_failed
      else if request.is_connect
      then tunnelled free (connect_tunnel authority)
          (record { status = 200; headers = []; body = no_body })
      else if not (as_value authority)
      then err bad_authority
      else elim (send (upstream_headers request.headers authority)) [
        | none ↦ err upstream_failed
        | some answer ↦ relayed free (has upgrade request.headers) authority answer
      ]

  module _ (parse_ip : List ℕ → Option IpAddr) (parse_authority : List ℕ → Option Authority) where
    unfoldable pub forward : Request → Result ForwardError (Response × Option Tunnel)
    unfolding forward_to target
    forward request = elim (target parse_ip parse_authority request) [
      | err e ↦ ok (error_response 400, none)
      | ok at ↦ forward_to request at
    ]

    -- the service of `handle_client`
    unfoldable pub serve : Request → Response × Option Tunnel
    unfolding forward
    serve request = elim (forward request) [
      | err e ↦ (error_response 502, none)
      | ok answer ↦ answer
    ]
