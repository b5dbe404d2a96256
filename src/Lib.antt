-- ===== src/Lib.antt =====
-- A verification library for kratos-micro-layout: its identifier generator, its gateway and the
-- packages that its services share, as functions of antt with the theorems that make them correct.
--
-- The parts and their files. Paths are from the root of the repository.
--   Snowflake    pkg/snowflake/snowflake.go: Node is the struct without its mutex, `generate` is
--                Generate on a list of clock readings (each call takes the readings that it needs,
--                and `none` is a call that waits for a reading beyond the list), the children have
--                the layout of identifiers, the waiting loops, histories of calls and clusters.
--   Idgen        pkg/idgen/idgen.go: the generator of a service over a snowflake node.
--   Gateway      app/gateway/internal: Upstream (proxy/upstream.go) keeps the nodes of a service,
--                Breaker, Writers and Handler (proxy/handler.go) serve one request, whose header
--                Outbound changes as httputil.ReverseProxy does on the way to the backend, Cors
--                and Server (server/server.go) filter requests and put the routes together. A
--                server has one handler per route, a handler one upstream and at most one
--                breaker; the filters of Cors and Middleware.RateLimit stand in front of all of
--                them, as Stack puts them. Main is app/gateway/cmd/gateway/main.go: the loading
--                of the configuration and the start, with what is opened and closed on the way,
--                the clients of Nacos included, as a list of events.
--   Middleware   pkg/middleware: RateLimit (ratelimit.go), Auth (auth.go), Logging (logging.go),
--                Codec (codec.go) and Validate (validate.go); Rejection has the validation in front
--                of the codec.
--   Jwt          pkg/jwt/jwt.go: a token manager over the library that signs and parses.
--   Log          pkg/log/log.go: the choice of level, handler and target by the options. Color is
--                pkg/log/color_log.go: ColorHandler is the struct without its writer and mutex, and
--                `handle` gives the text that Handle writes; its children have derived handlers,
--                lines without newlines, and colored against plain lines.
--   Docs         pkg/docs/docs.go: the OpenAPI document with its security scheme and its servers, as
--                operations on the lines of a text; Served puts Register and handleSpec together.
--   Nacos        pkg/nacos/nacos.go and source.go: addresses, clients, the config source and, in
--                Watcher, the channel between the listener and Next. Main takes the registry and the
--                config source from here.
--   Prelude, Word, Decimal, Text, Quote, Time and Http have what these parts use of Go: int64 with
--                its wrap-around, decimal numbers, strings, quoting, instants, requests and response
--                writers. A string is the list of its code points, but for a host name and its hash.
--
-- Conventions. An operation takes the state and returns it; a pair of a value and an error is a
-- Result. A mutex makes calls a sequence, and so they are lists or histories here. The choice of a
-- `select`, of a selector and of what a peer answers is an argument. No definition runs on fuel but
-- the digits of a decimal, whose fuel is the number plus one, which bounds its digits; loops that
-- wait for a clock are structural in the list of its readings.
--
-- Parameters. Code outside the repository is an argument with its documented laws: the selector and
-- the registry of kratos, gobreaker, the float operations of the failure ratio, the token bucket of
-- golang.org/x/time/rate, golang-jwt, the client of Nacos, the parsers of URLs and of host and port,
-- protovalidate, the configuration library and the application of kratos, the embedded documents,
-- and the verifier that a service gives to TokenAuth. httputil.ReverseProxy is its change of a
-- request's header (Gateway.Outbound) and its order of writes to the response; trailers, flushing
-- and upgraded connections are left out. A LogValuer is resolved to its end, without the limit of
-- slog.
--
-- Not modelled: the Go code that is generated from the protobuf files, the Swagger UI, the flags and
-- the identity of the gateway, and the log lines that the modelled code writes on its way.
mod Prelude
pub mod Word
pub mod Decimal
pub mod Text
pub mod Quote
pub mod Http
pub mod Middleware
pub mod Jwt
pub mod Nacos
pub mod Log
pub mod Idgen
pub mod Docs
pub mod Gateway
pub mod Time
pub mod Snowflake
