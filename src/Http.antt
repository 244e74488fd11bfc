-- ===== src/Http.antt =====
-- src/http: the parser of server-sent events.
pub mod Sse
