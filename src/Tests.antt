-- ===== src/Tests.antt =====
-- Concrete runs of the theorems.
pub mod Device
pub mod Drivers
pub mod Hardware
pub mod Loading
pub mod Replies
pub mod Rounds
pub mod Usb
pub mod Lamps
pub mod HexFiles
pub mod HexLines
pub mod Upload
pub mod Interfaces
pub mod Points
pub mod Sessions
pub mod Systems
