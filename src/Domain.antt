-- ===== src/Domain.antt =====
-- The data of the program: enumerations, table rows and requests.
pub mod Enums
pub mod Models
pub mod Schemas
pub use Enums.*
pub use Models.*
pub use Schemas.*
