-- ===== src/Kube.antt =====
-- What the program calls and does not implement: the API client, the exec stream into a pod, the
-- error constructors and the finalizer helpers. Every call is a function of an unknown state of the
-- cluster, which it may change, reads too: other actors work between two calls.
mod Calls
mod Monad
pub mod Post
pub mod Steps
pub mod Log
pub mod Answers
pub mod Costs
pub use Calls.*
unfoldable pub use Monad.*
