-- ===== src/Lib.antt =====
-- A verification library for warp-socks: a proxy that carries SOCKS and HTTP clients into Cloudflare
-- WARP, over MASQUE (HTTP/3, or HTTP/2 through Psiphon) or over WireGuard.
--
-- A client connects to the mixed listener and speaks SOCKS5, SOCKS4 or HTTP; its target is dialled through an
-- outbound, which the supervisor has chosen, verified and published. Names are resolved inside the
-- tunnel. The MASQUE outbound writes and reads QPACK header sections and frames.
--
-- Prelude       names, Boolean tests, lists over the native numbers, actions with a state and errors,
--               bytes, and text as the list of its bytes
-- Huffman       src/outbound/masque/huffman.rs: the code table (Table), match_symbol, decode
-- VarInt        src/outbound/masque/varint.rs, over the codec of the quinn crate, which is a record of
--               its two functions and the round trip that its documentation promises; Quic is a codec
--               that meets it
-- Qpack         src/outbound/masque/qpack.rs: integers, strings, the CONNECT request, frames, and
--               decode_headers
-- Capsule       src/outbound/masque/h2.rs: start_send, send_packets and receive_packets
-- Net           what the protocols share: Host of src/outbound/mod.rs, the addresses of std::net, and a
--               client's stream as the bytes that arrive, the bytes that were sent, and the writes
--               that still succeed
-- Socks5        src/socks5.rs: the handshake (read_request, handle_connect, the start of
--               handle_udp_associate), the header of a relayed datagram (Udp), and the loop of
--               handle_udp_associate with UdpEgressSet (Association), whose sockets and workers are
--               events; Client has its runs
-- Http          src/http_proxy.rs: target, strip_hop_headers, forward and the answers of handle_client
-- Mixed         src/mixed.rs: bind_listeners, the turns of accept_loop, is_lan_address and dispatch
-- Socks4        src/socks4.rs: the handshake
-- Dns           src/dns.rs: encode_dns_query, skip_name, parse_dns_response, the cache (Cache) and
--               resolve_inner (Resolve)
-- Ip            src/outbound/ip.rs: resolve_targets, interleave_addresses, connect_first and connect_tcp;
--               which dial ends first is an argument
-- Doh           src/outbound/masque/doh.rs: the cache, read_http_response and resolve_over
-- Masque        src/outbound/masque/mod.rs: drain_download, drain_upload, exchange, edge_addrs,
--               resolve_domain (Lookup) and connect_tcp; a
--               receiving stream is its bytes and whether it is reset behind them, and how many bytes
--               a read gives is an argument
-- Wireguard     src/tunnel.rs: the reserved bytes, the queue of the outer socket (Queue), the timer and
--               receiving (Receive), and the error reports; what the state machine of boringtun and
--               the socket answer is given call by call
-- Endpoint      src/endpoint/state.rs and src/endpoint/source.rs: cooldowns, the last good endpoint, and
--               the order of the candidates; Source has the reading of them
-- Health        src/health/recovery.rs and the check of src/health/heartbeat.rs
-- Config        src/appconfig.rs: the sanitizers of numbers
-- Supervisor    src/supervisor.rs: prepare_wireguard, prepare_base, watch_outbound, and the turns of
--               recover_outbound; Region has prepare_region
--
-- A function of the source is a function of the same name; a long one is cut into the parts that its
-- module lists. Integers are natural numbers with the source's wrap-around and saturation written out.
-- Errors are constructors, one for each text of the source; `stuck` is none of them: it says that a loop
-- of the model ran out of fuel. Fuel is nine rounds for a prefixed integer (the shift passes 56 in the
-- ninth), the length of the payload for field lines (each is at least one byte), and the length of the
-- message for the labels of a name; that these are enough is proved. For the capsules of a buffer it is
-- one more than its length, and so it is for the frames of a stream and the pieces of a frame. A dial, a probe, a clock, a write
-- of the state file and what a socket receives are arguments.
--
-- Not modelled: the network stack, the counters of src/dataplane.rs, the connections of MASQUE, Psiphon, registration
-- and the relay of bytes; a failure to reset the heartbeat, to read the state file, or to read and write the
-- local side of a MASQUE stream; TLS, QUIC, HTTP/1, HTTP/2 and SSH are libraries.
pub mod Prelude
pub mod Http
pub mod Huffman
pub mod VarInt
pub mod Wireguard
pub mod Qpack
pub mod Capsule
pub mod Ip
pub mod Masque
pub mod Mixed
pub mod Net
pub mod Dns
pub mod Doh
pub mod Endpoint
pub mod Health
pub mod Config
pub mod Supervisor
pub mod Socks5
pub mod Socks4
