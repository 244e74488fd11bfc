-- ===== src/Fastcgi.antt =====
-- src/sapi/fastcgi: the server of the web API.
pub mod Router
pub mod Security
pub mod Auth
