-- ===== src/Lib.antt =====
-- wrtg, a transparent proxy for Telegram on routers, in Rust (crates/wrtg/src). A client's
-- connection is redirected to the daemon, which reads the obfuscated MTProto handshake, opens a
-- WebSocket to a datacenter, a front, or a Cloudflare Worker or proxy, and carries the messages
-- over it. Around that stand the memories of what has failed, the pools of ready connections and
-- the order in which domains are tried.
--
-- The files, and what they model (paths below crates/wrtg/src):
--   Cipher          the AES-256-CTR stream of the crates `aes` and `ctr`, which are not part of the
--                   repository: an interface with the laws that the program relies on; Cipher/Sample
--                   is a small cipher that has them
--   Mtproto         mtproto.rs: Handshake has parse_direct_handshake and generate_relay_init, Crypto
--                   has CryptoCtx and its halves, Routing the front scope, the address tables and
--                   tcp_fallback_targets
--   ClientInit      handshake.rs: read_client_init and its parsers, PrefixedStream
--   Splitter        splitter.rs: MsgSplitter
--   Bridge          bridge.rs and main.rs, over all the memories of the daemon (Bridge/State):
--                   Upstream the task of bridge_ws that carries the client's bytes, Idle its idle
--                   guard, Tcp bridge_tcp, Direct try_ws_bridge with what it leaves behind, Fallback try_cf_fallback with its race and try_tcp_fallback,
--                   Session handle_handshake, Connection handle_conn and is_self_target,
--                   Passthrough blind_relay and the Worker tunnel; Runs and Setting hold examples
--   TlsSni          tls_sni.rs: the ClientHello, HttpHost the Host header, Targets passthrough_targets
--   Media           media.rs: which media addresses are fronted, and the rewriting of the Host header
--   WsPool, CfWorkerPool  ws_pool.rs and cf_worker_pool.rs, over ConnPool and the cooldowns
--   Ws              ws.rs: Error has WsConnectError, Frame the frames on the wire, Recv recv_binary,
--                   Upgrade the opening of a connection and Answer the server's answer to it
--   TtlMap          ttl_map.rs
--   WsBlacklist     ws_blacklist.rs
--   IpFail          ip_fail.rs
--   Fronting        fronting.rs
--   Cooldown429     cooldown429.rs
--   CfWorkerCooldown  cf_worker_cooldown.rs
--   CfProxyCooldown cf_proxy_cooldown.rs
--   CfProxy         cf_proxy.rs, over a connector and a resolver
--   CfBalancer      cf_balancer.rs
--   CfProxyDomains  cf_proxy_domains.rs: the shared list of domains and its refresh
--   CfProxyDoh      cf_proxy_doh.rs: DNS over HTTPS, and its cache
--   Config          config.rs: the file, the lookups, and the reload
--   ConnPool        conn_pool.rs
--   DcLearn         dc_learn.rs: parse_line, load, lookup, learn, observed_slots
--   Watchdog        watchdog.rs: the accept loop, as a step relation with the connections it serves
--   Prelude         shared types, lists, maps, bytes, bits and results
-- Bridge/Connection classifies a client with ClientInit; Bridge/Session runs Direct and Fallback on
-- what it finds, which read and write the memories of IpFail, WsBlacklist, Fronting, the cooldowns,
-- the balancer and the pools; Config and CfProxyDomains replace the lists of the balancer;
-- Bridge/Passthrough takes the rest, with TlsSni and Media. Bridge/Upstream runs on Mtproto/Crypto
-- and Splitter, ClientInit on Mtproto/Handshake; IpFail, Fronting and WsBlacklist stand on TtlMap,
-- CfWorkerCooldown and CfProxyCooldown on Cooldown429, which reads the errors of Ws; DcLearn asks
-- Mtproto/Routing, which asks it in turn for what the tables lack. The names of definitions are
-- those of the source.
--
-- How the code is rendered:
--   A static or an object behind a lock is an argument, and the new value a result. The lock is held
--   for a whole method in TtlMap, Cooldown429 and the balancer's steps; in ConnPool the code lets go of
--   it between sections, so these are functions of their own, and Bounds interleaves them.
--   Instants and durations are nanosecond counts, without the bound beyond which adding them panics. A function that reads the clock takes the reading as
--   an argument; where readings could differ within one function of Cooldown429 there are several.
--   Bytes are numbers. A HashMap is an association list with one entry for each key. Text is its
--   bytes, and case and white space are those of ASCII.
--   Random draws (relay packet, mask keys) and the outcomes of reads and connects are arguments.
--   Where a function reads the clock often, the readings are a record. The attempts of a race are given in
--   the order in which they end. In a parser, a position in a slice is what stands from it on, and
--   an index out of bounds is a result of its own. The original destination is an IPv4 address.
--   A read from an open connection on which the peer is silent is not modelled: in Ws/Frame and
--   Ws/Recv the bytes given are all that come, and a read beyond them is the end of the stream.
--   Log lines are left out, but not the calls that change state inside them. Where a reason or an error
--   text contains a number that nothing reads, the number is left out, or an argument of a constructor.
--
-- Fuel: split_loop runs on the number of buffered bytes, of which a round takes one at least;
-- recv_loop on the length of what the peer has sent, of which a frame takes two bytes; header_value
-- on the length of the headers; the loops over records, extensions and names of a ClientHello on
-- the length of the data, of which a round takes one byte at least; the idle guard on its rounds,
-- of which one lasts 50 milliseconds at least; read_headers on the length of the answer, of which a
-- line takes one byte at least; the scan of a DNS record on its length. generate_relay_init runs
-- over the list of draws and gives none where they run out.
--
-- Not modelled: sockets, TLS and tasks themselves; the downstream and ping tasks of bridge_ws and
-- the copy loops of a blind relay; the writing of learned addresses; the allocator's accounting,
-- statistics and logging; the start-up of main.rs. SHA-1 and Base64, the network and the HTTP
-- client are parameters.
pub mod Prelude
pub mod Cipher
pub mod Mtproto
pub mod ClientInit
pub mod Splitter
pub mod Bridge
pub mod CfBalancer
pub mod Config
pub mod ConnPool
pub mod DcLearn
pub mod TtlMap
pub mod Ws
pub mod Cooldown429
pub mod CfWorkerCooldown
pub mod WsBlacklist
pub mod IpFail
pub mod Fronting
pub mod CfProxyCooldown
pub mod CfProxyDoh
pub mod CfProxyDomains
pub mod CfProxy
pub mod Media
pub mod TlsSni
pub mod WsPool
pub mod CfWorkerPool
pub mod Watchdog
