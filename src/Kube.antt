-- ===== src/Kube.antt =====
-- The Kubernetes API as the workflow sees it: the objects of one namespace, and calls that may
-- fail. The server is not part of the repository, so which calls fail, and how, is a parameter of
-- the state (`fault`), and so is how each wait ends (`waits`); both are read at the number of the
-- call. NotFound and AlreadyExists are never faults: they come exactly from the objects.
-- A deletion takes effect at once, and time passes in waits only.
mod Objects
mod Monad
mod Calls
pub mod Inversion
pub use Objects.*
pub use Monad.*
unfoldable pub use Calls.*
