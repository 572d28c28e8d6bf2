-- ===== src/Lib.antt =====
-- Verification of kit-logger, a structured logging library for Go on log/slog.
--
-- A logger (pkg/logger/slog_logger.go) checks the level, the lifecycle gate and the rate limit of a
-- call, and hands a record to a chain of slog handlers (pkg/logger/handler), each of which wraps the
-- next. Flush and Shutdown find the handlers of the chain that buffer (pkg/logger/lifecycle.go).
-- pkg/logger/config.go builds that chain from a Config; pkg/logger/httpmw and pkg/logger/grpc log one
-- line for each request or call through such a logger.
--
-- Files and what they model, under pkg/logger:
--   Logger        slog_logger.go: log methods, logRateAware, emit, With, WithContext, WithCallerSkip
--   Rate          rate.go: extractLogOptions, shouldLog, evictLocked
--   Lifecycle     lifecycle.go: collectFlushers, lifecycleGroup
--   Level         level.go, and handler/hook_handler.go
--   Buffered      handler/buffered_handler.go: the core that all derived handlers share, its worker
--   Filter        handler/filter_handler.go
--   Dedup         handler/dedup_handler.go
--   GlobalFields  handler/global_fields_handler.go
--   Sampling      handler/sampling_handler.go
--   Multi         handler/multi_handler.go
--   Source        handler/source_handler.go and handler/component_handler.go
--   Config        config_types.go and config.go: Level, Format, Validate, decorate, NewWithError
--   Global        config.go: SetGlobal and L; loggerext.go: EnsureLoggerOnce
--   Metrics       prometheus/handler.go
--   Kitlogtest    kitlogtest/test_handler.go and kitlogtest/mocklogger.go
--   Console       handler/console_handler.go
--   Otel          otel/handler.go
--   Http          httpmw/middleware.go: the response recorder, request ids, the middleware
--   Grpc          grpc/interceptor.go: the interceptors of servers and clients
--   Evict         the forced pass of the two evictLocked functions: sort, cutoff, delete
--   Slog          the types of log/slog, context and errors that the program uses
--   Base          Booleans, lists, integers; Tests: the theorems at concrete inputs
-- In each directory Defs holds the definitions, in Config with Types and Assembly, in Grpc with Server
-- and Client, in Http with Writer, in Lifecycle with Steps; the other files hold what is
-- proved of them. A handler is a value of a type H, and a call reads and changes a world of type S, which holds the
-- mutable state behind the chain. A Go function keeps its name in snake case; a method takes its
-- receiver as an argument, and the name of its component where two components share it.
--
-- Concurrency: what a mutex, a channel or an atomic makes one action is one definition; Buffered.Steps
-- and Lifecycle.Steps are step relations over all interleavings of those. In Lifecycle each call of a
-- handler, of a Flush or of the shutdown's goroutine, begins and returns by itself, and log calls past
-- the gate go on beside them. In Buffered the count of a Handle is one action with its check, and the
-- last two writes of the worker are one. An HTTP handler and a stream handler are programs
-- of calls, each later call by what the earlier ones return; a client stream is the sequence of its
-- events, the end of its context among them. In Config a chain is the list of the handlers that are
-- built, with what each constructor is given; a handler of the caller is a number. Global.Steps is the
-- step relation of the calls of L and SetGlobal.
--
-- Bounds: counters are uint64 and wrap at 2 ^ 64, the suppressed count is an int64 as its bit
-- pattern. Durations and levels are unbounded integers, instants are natural numbers, so that the
-- overflow of a time.Duration is not modelled. A map is an association list, whose order stands for
-- the order of iteration. The only fuel is in short_func_name, one round for each byte of the name
-- and one more; Source.Names proves that it is enough.
--
-- Parameters: rate.Limiter of golang.org/x/time/rate, with the documented laws of a bucket of size
-- one (Rate.Limiter.Bucket); float64 (Sampling.Floats); strings.EqualFold and Value.String
-- (Filter.Texts); runtime.Callers, CallersFrames and filepath.Base; how slog reads arguments as
-- attributes (Logger.Services). A LogValuer is pure, and resolves to one value.
--
-- Further parameters: http.ResponseWriter and its optional interfaces, with what the documentation of
-- net/http says of a status of at most 999 and of a source that is not empty (Http.Writer.NetHttp);
-- what grpc-go makes of an error on its way to the client (Grpc.RequestId); the codes, texts and
-- streams of grpc-go (Grpc.Defs.Texts, Grpc.Server.ServerStream); strings.ToLower and fmt (Config.Types.Words);
-- Time.Format, Value.String, filepath.Base, strconv.Quote and unicode (Console.Defs.Texts); the span of
-- a context (Otel.Defs.SpanContext); what the caller's MetricsHandler and ContextHandler return.
--
-- Not modelled: the one-line helpers of pkg/logger/helpers.go and pkg/logger/utils, ExitWithFlush, the
-- writing of the JSON and text handlers of log/slog, the generator of request ids, and the client of
-- Prometheus, whose registry is a parameter.
pub mod Base
pub mod Slog
pub mod Evict
pub mod Rate
pub mod Sampling
pub mod Filter
pub mod GlobalFields
pub mod Dedup
pub mod Buffered
pub mod Multi
pub mod Level
pub mod Source
pub mod Lifecycle
pub mod Logger
pub mod Http
pub mod Grpc
pub mod Config
pub mod Global
pub mod Kitlogtest
pub mod Metrics
pub mod Console
pub mod Otel
pub mod Tests
