-- ===== src/Utils.antt =====
-- grinboxlib/src/utils: the helpers of the library.
pub mod Hex
pub mod Base58
pub mod Crypto
