-- ===== src/Socks4/Runs.antt =====
-- The SOCKS4 theorem at a concrete input.
use warp_socks.Prelude.{ℕ, ◌≡◌, List, [], ◌∷◌, ◌++◌, Option, none, arith}
use warp_socks.Prelude.Exec.{ok}
use warp_socks.Prelude.Bytes.{to_be16}
use warp_socks.Net.{IpAddr, Host_parse}
use warp_socks.Socks4.{sentinel, read_request}
use warp_socks.Socks4.RoundTrip.{read_request-name}

no_ip : List ℕ → Option IpAddr
no_ip s = none

abbrev plain : List ℕ → List ℕ
plain bytes = bytes

read_request-name_example :
    read_request plain no_ip (record {
      input = 4 ∷ 1 ∷ (to_be16 80 ++ (sentinel ++ ([] ++ (0 ∷ ((b'h' ∷ []) ++ (0 ∷ (7 ∷ [])))))));
      output = [];
      writes = 1;
    })
    ≡ (
      ok (record { host = Host_parse no_ip (plain (b'h' ∷ [])); port = 80 }),
      record { input = 7 ∷ []; output = []; writes = 1 },
    )
read_request-name_example =
    read_request-name plain no_ip 4 80 [] (b'h' ∷ []) (7 ∷ []) [] 1 (omega arith) tt (omega arith)
      ((λ e. cc), tt) (omega arith)
