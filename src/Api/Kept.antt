-- ===== src/Api/Kept.antt =====
-- Every handler of backend/app/api keeps what no write of a table breaks.
mod Gate
mod Platform
mod Settings
mod Cases
mod Agents
mod Pipeline
mod Reads
pub use Gate.*
pub use Platform.*
pub use Settings.*
pub use Cases.*
pub use Agents.*
pub use Pipeline.*
pub use Reads.*
