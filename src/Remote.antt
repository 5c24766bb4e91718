-- ===== src/Remote.antt =====
-- The remote artifact cache: the client redo_core/src/remote_cache.rs and the server
-- bins/src/redo_cache_server.rs. What one writes to a connection the other reads: lists of bytes.
pub mod Json
pub mod Http
pub mod Url
pub mod Fuel
pub mod Messages
pub mod Answers
pub mod Client
pub mod Server
pub mod Calls
pub mod Fields
pub mod Exchanges
pub mod Mappings
pub mod Download
use redo.Base.{ℕ, ◌<◌, ◌≡◌, List, All, Text, Option, some}

abbrev pub Bytes : Type 0
Bytes = List ℕ

-- The UTF-8 codec of the standard library: `as_bytes`, `String::from_utf8` and `from_utf8_lossy`.
pub record Utf8 : Type 0 where
  pub encode : Text → Bytes
  pub decode : Bytes → Option Text
  pub lossy : Bytes → Text

abbrev pub IsAscii : Text → Type 0
IsAscii s = All (λ (c : ℕ). c < 128) s

-- ASCII texts are their own bytes.
pub record IsCodec (u : Utf8) : Type 0 where
  pub encode_ascii : (s : Text) → IsAscii s → u.encode s ≡ s
  pub decode_ascii : (s : Text) → IsAscii s → u.decode s ≡ some s
  pub lossy_ascii : (s : Text) → IsAscii s → u.lossy s ≡ s
