-- ===== src/Objects.antt =====
-- The objects that the program reads and writes, with the fields that it uses: its own kinds
-- (api/v1) and those of Kubernetes, kube-ovn and Submariner. A `string` is a `String`, a
-- `map[string]string` a `GoMap`.
mod Own
mod Foreign
pub use Own.*
pub use Foreign.*
