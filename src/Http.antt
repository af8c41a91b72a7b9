-- ===== src/Http.antt =====
-- What the program uses of the web platform and of Next.js: numbers, JSON, headers, requests,
-- responses, and effects. None of this is code of the repository.
mod Number
mod Types
mod Exec
pub mod Headers
pub use Number.*
pub use Types.*
pub use Exec.*
unfoldable pub use Number.{math_round, math_clamp, is_integer, is_positive}
unfoldable pub use Exec.{json_response, catch, fetch}
