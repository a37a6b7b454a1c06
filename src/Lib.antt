-- ===== src/Lib.antt =====
-- Ahlyx Labs: the Go services of the repository, modelled from their source, with theorems on what
-- makes them correct.
--
-- The program is one HTTP server (cmd/server) with four tools under internal/: a relay between a
-- capture agent and a browser (pcap), a TCP scanner (scanner), look-ups of indicators at public
-- sources (enrichment) and hardware figures (hardware). They share a response cache, rate limits,
-- configuration and telemetry (shared).
--
-- Common holds the names that all modules share. Strings and byte slices are lists of bytes, maps
-- are association lists (Common/Assoc), and an instant is a number of nanoseconds, given to each
-- operation where the source asks the clock.
--
-- Relay: internal/pcap. Session is a RelaySession with its methods Reserve, Release, SetAgent,
-- SetBrowserAndFlush, Forward, Touch, IsExpired and CloseBoth; Encoding the identifiers and tokens;
-- Store the SessionStore, a map of addresses and a heap, with Create, Reserve, Get, Delete and
-- cleanup (remove stands for Delete); Delivery the interleavings of the two goroutines of a session
-- as a step relation; Handler the relay endpoint of internal/pcap/handlers/relay.go. The handler
-- reserves through the store, and its loops call the session through a pointer that the store may
-- have dropped. Endpoint is NewSession of internal/pcap/handlers/session.go.
--
-- Cache and RateLimit: internal/shared/cache.go and ratelimit.go. The token buckets are those of
-- x/time/rate, an interface with the one law that the program relies on; RateLimit/Buckets meets it.
--
-- Verdict: internal/enrichment/models, the verdicts on domains, URLs and hashes from the answers of
-- the sources. Threat: ScoreIPThreat and IPVerdict, over an interface for float64.
--
-- Net: what the program uses of Go's package net, with the parser of addresses and networks.
-- Validators: internal/enrichment/validators. Outbound: the policy on targets of the server's own
-- connections, internal/enrichment/services/outbound_target.go. Client: who a request comes from,
-- internal/shared/origin_verify.go and ClientIP. Telemetry: the queue of internal/shared/db.go.
--
-- Scanner: internal/scanner. Scope reads the target and lists its addresses, Pool is the worker pool
-- of scanHosts as a step relation, Scan the answer and Handler the two endpoints.
--
-- Json: what the program uses of Go's encoding/json: documents, their parser and printer with the
-- escapes of both, and the decoding into structs by tags. Services: the fetch functions of
-- internal/enrichment/services, one module per file there: the request, what becomes of the status,
-- the body and the document, and the polling of URLScan. Enrichment: internal/enrichment/handlers,
-- with the four lookups in Ip, Domain, Hash and Url. A lookup checks its input, asks the cache, hands
-- the indicator to its sources, whose replies are collected in the order in which they arrive, makes
-- the verdict of Verdict or Threat and the JSON of the response, puts it into the cache of Cache and
-- logs it in Telemetry; Visit.meanwhile is what other requests do to the service while it waits. The
-- theorems stand in Lookup, Repeat, Guards and Arrival.
--
-- Config: internal/shared/config.go, Load over an environment. Origin: internal/shared/origin.go.
--
-- Hardware: internal/hardware, its five endpoints over the readings of gopsutil.
--
-- Server: the table of routes of cmd/server/main.go, with OriginVerification and the limiters in
-- front; which route of the table a request gets is chi's choice, an argument.
--
-- Bounds: the loop of enumerateHosts has 2 ^ 32 rounds of fuel, and it counts over uint32, so it ends
-- before; Scanner/Scope/Range has the exact list for the networks that are accepted. The printing of a
-- decimal has more fuel than digits. Sums of int and of uint64 wrap at 64 bits. The parser of JSON has
-- more fuel than twice the bytes of the text, and each of its calls that hands on fuel reads a byte or
-- is the first of two at the same place. The polling of URLScan has as many rounds as it is given;
-- Services/Deadline has the number that is enough.
--
-- Not modelled: the HTTP, WebSocket, SQL, TLS and WHOIS libraries, gopsutil and url.Parse, whose
-- answers are arguments; float64 but for the interfaces of Threat and Hardware; the texts of the
-- errors of encoding/json; the semaphore of services/client.go; the middleware that applies to all
-- routes (CORS, recovery), the listener and its timeouts, the web front end. Where a document has the
-- same key twice and a list of structs under it, Go keeps fields of the first list's elements, and the
-- decoder here does not.
mod Common
pub mod Relay
pub mod Cache
pub mod RateLimit
pub mod Verdict
pub mod Json
pub mod Services
pub mod Config
pub mod Server
pub mod Hardware
pub mod Enrichment
pub mod Origin
pub mod Net
pub mod Scanner
pub mod Validators
pub mod Outbound
pub mod Telemetry
pub mod Client
pub mod Threat
pub mod Tests
