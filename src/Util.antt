-- ===== src/Util.antt =====
-- src/util: the helpers that the other parts share.
pub mod Errno
pub mod Id
pub mod Utf8
pub mod Base64
pub mod StrMap
