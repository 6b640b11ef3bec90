-- ===== src/Platform.antt =====
-- What the services stand on: the rows of the database, the client that reads and writes them, the
-- exceptions and the state that a request handler passes on, and the external functions.
mod Records
mod Database
mod Handling
mod Services
pub mod Laws
pub use Records.*
pub use Database.*
pub use Handling.*
pub use Services.*
