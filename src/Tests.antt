-- ===== src/Tests.antt =====
-- The theorems at concrete inputs: a run of each component on which the hypotheses hold.
mod Buffered
mod Rate
mod Sink
mod Redaction
mod Attributes
mod Sampling
mod Shared
mod Logging
mod Http
mod Grpc
mod Config
mod Console
mod Global
mod Metrics
