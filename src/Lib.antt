-- ===== src/Lib.antt =====
-- faketunnel publishes services behind NAT. An Agent inside the network dials the public Edge over
-- TLS and authenticates with a token. On that connection the two multiplex streams: for each
-- visitor of a public port that Edge lets in, it opens a stream, sends an OpenMeta and waits for
-- the Agent's acknowledgement, and for each public UDP port it opens one stream that carries
-- datagrams of many associations. Who is let in is decided by an allowlist and a ban store, both
-- persisted, both changed at run time by an API, with hooks that evict what is no longer allowed.
-- Both ends start from a YAML file that is filled with defaults and validated.
--
-- The parts, and the files that model them (paths from the repository's root):
--   Config/File, Config/Validate: internal/config/config.go, the file as a record with its
--     accessors, and the checks; Tls and Tunnel are TLS and Tunnel there, `kind` is Type. The
--     description that validation is compared with is in Config/Validate/Spec.
--   Config/Addr, Config/Naming and Config/Defaults: internal/config/defaults.go, the addresses,
--     the names and types of tunnels, and applyCommon, applyEdgeDefaults and applyAgentDefaults.
--   Config/Find: internal/config/find.go.
--   Config/Load and Config/Mapping: Load, LoadEdge and LoadAgent with the tokens, of config.go and
--     internal/config/secret.go; ParseMapping, compactLocal and yamlScalar of
--     internal/config/initgen.go.
--   Tunnel/Wire, Tunnel/Frame and Tunnel/Messages: internal/tunnel/frame.go, with the integers and
--     strings (putString, getU32), WriteFrame and ReadFrame, and each message's Marshal and Parse.
--   Tunnel/Handshake: internal/tunnel/handshake.go, ClientHandshake and ServerHandshake.
--   Tunnel/Session: internal/tunnel/session.go, OpenData, AcceptData, AckData, ServePong and the
--     round of a ping.
--   Ban/Store and Ban/Methods: internal/ban/store.go. Ban/Store has the record, the store and the
--     bodies that run under the lock, with `_locked` names; Ban/Methods has the methods, which find
--     the key of an address first. Ban/Steps puts the operations in sequences, UnbanCIDRs
--     included.
--   Acl/Parsing and Acl/Store: internal/acl/allowlist.go and internal/acl/store.go. AllowList is
--     the type List there; add_entries, remove_entries and replace_all are Add, Remove and Replace.
--   Acl/Files: internal/acl/file.go and internal/acl/bootstrap.go; SaveFile is there with each of
--     its system calls, and replace_file is what follows CreateTemp.
--   Edge/Gate: internal/edge/server.go, the decisions of isAllowed, publicAllowed,
--     noteTunnelInvalid, trustedTunnelIP and handleAgent, over a Server that has the allowlist, the
--     bans, the last Agent's address and the count of denials.
--   Edge/Sessions: internal/edge/server.go, setSession with its goroutine session-watch, and the
--     slots that handlePublic takes.
--   Edge/Evictions: the connections that internal/edge/server.go and internal/edge/http.go track;
--     trackTCP and trackConn are track_conn and untrack_conn, and evictTCPConns and
--     evictDisallowed are collect, under the lock, and close_next for each connection.
--   Edge/Routes, Edge/Visits and Edge/Certs: internal/edge/http.go, groupHTTPTunnels and
--     lookupHTTPTunnel; handleHTTPConn, spliceHTTP and http1Handler up to the proxy; loadHTTPCerts
--     and the choice of a certificate. Edge/Admission is about handleHTTPConn.
--   Edge/Hub: internal/edge/udp.go, the associations of one UDP port; ensure_assoc is the first
--     critical section of ensureAssoc, and what its caller does later is a step of its own.
--     Edge/Hub/Agreement compares the two tables.
--   Agent/Client: internal/agent/client.go, nextBackoff and the waits of Run, resolveLocal,
--     handleStream and handleUDPStream.
--   Agent/Udp: internal/agent/udp.go, the associations of one stream; openAssoc is open_assoc up to
--     the end of the dial and enter_assoc from there, closeAll is shut and then leave for each
--     association, and other steps may come between. Agent/Udp/Reader is readLoop.
--   Proxy/Hello and Proxy/Prefix: internal/proxy/peek.go, PeekClientHello and the parsers under it,
--     and internal/proxy/prefix.go. Peeked has what is left of the reader, the bytes kept and the
--     outcome.
--   Proxy/Host and Proxy/Local: internal/proxy/host.go and internal/proxy/dest.go.
--   Admin/Auth and Admin/Handlers: internal/admin/server.go, the bearer token and the handlers of
--     the allowlist and the denylist.
--   Metrics: internal/metrics/metrics.go, and Server.status of internal/edge/server.go.
--   Net: what the program uses of Go's net package, on addresses as bytes; Net/HostPort is
--     net.SplitHostPort and net.JoinHostPort, and Net/Proxied internal/netutil/ip.go.
--   Base: Boolean tests, lists, results, integers, byte strings, maps, and what is used of Go's
--     strings package.
-- The handshake's theorems run the client's bytes through the server and back. The gate calls the
-- handshake, the allowlist and the ban store as handleAgent and publicAllowed do, and its theorems
-- follow from theirs; the API's handlers call the same two stores. The routes are built of the
-- tunnels of a configuration that validation let through. Proofs stand beside the part they are
-- about; runs at concrete inputs are in the modules named Tests and RouteTests.
--
-- State: a struct is a record, and a method takes it and returns it with the method's result. The
-- tunnel code runs in a state and error monad over a connection (Tunnel/Conn): the bytes that the
-- peer sends before it closes, the bytes sent, and a list of writes that will fail, so that every
-- cut of either stream is covered. In Edge/Hub the associations are shared objects, so that there
-- the heap is part of the state and a pointer is a number. A mutex makes a critical section one
-- step, and neighbouring ones of a goroutine are one step where the files say so; every order of
-- steps is a list of events. Sessions, certificates and local connections are
-- numbers.
--
-- Bounds and fuel: numbers are unbounded and the code's widths are written out: lengths of 2 and 4
-- bytes, ids modulo 2^32, counters modulo 2^64, clocks in nanoseconds. serve_pong takes fuel, and
-- one more than the bytes that have arrived is enough, since each round reads a whole header. The
-- digits of a number and the rounds of trim_space take fuel that is enough by the number's and the
-- text's size. A peek takes a round for each record, of six bytes at least, and the loops over
-- extensions and names as many rounds as there are bytes. unique_name tries one candidate more than
-- there are names in use. A UDP hub of Edge is followed for fewer than 2^32 - 2 steps, since after
-- that its ids are used again.
--
-- Parameters: net.ParseIP, net.ParseCIDR, IP.String, net.LookupIP, SHA-256, strings.ToLower, the
-- runes of a text and unicode.IsLetter, JSON and YAML, the file system, the environment and the
-- source of random bytes are arguments; a theorem that needs anything of one has it as a named
-- hypothesis. The clock, whether a file can be written, whether TLS failed and whether a dial
-- connects are arguments too. net.LookupIP is one function of the name, so that a name that a later
-- dial resolves otherwise is outside the model.
--
-- Not modelled: sockets, deadlines (a late read is an end of the stream, a late write a failed
-- one), TLS, the yamux multiplexer, the text of JSON and YAML, log lines, nil receivers, the
-- reverse proxy and the relays, the frames that Edge's UDP reader takes, the heads of HTTP requests,
-- the files that `init` renders, the commands, and the order in which Go's maps are walked, on which
-- no result here depends.
pub mod Base
pub mod Net
pub mod Metrics
pub mod Config
pub mod Tunnel
pub mod Ban
pub mod Acl
pub mod Proxy
pub mod Edge
pub mod Agent
pub mod Admin
