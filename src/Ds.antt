-- ===== src/Ds.antt =====
-- The data sets and structures of include/ppsi/ieee1588_types.h and include/ppsi/pp-instance.h.
mod Enums
mod Identity
mod Port
mod Device
mod Options
pub use Enums.*
pub use Identity.*
pub use Port.*
pub use Options.*
pub use Device.*
