-- ===== src/Common.antt =====
-- What the components share: the library's names, integers, dicts and the results of calls.
mod Base
mod Int
mod Dicts
mod Results
pub use Base.*
unfoldable pub use Int.*
pub use Dicts.*
pub use Results.*
