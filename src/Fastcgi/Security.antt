-- ===== src/Fastcgi/Security.antt =====
-- src/sapi/fastcgi/security.c: hashes of passwords and the decoding of credentials.
--
-- The bytes of /dev/urandom are an argument, `none` for a failed read.
pub mod Sha256
pub mod Hmac
pub mod Hex
pub mod Password
pub mod Basic
