-- ===== src/Examples.antt =====
-- Concrete inputs at which the theorems of the other modules apply, and runs on them.
pub mod Nfc
pub mod Outside
pub mod Network
pub mod Task
pub mod Cache
pub mod Calls
pub mod Reader
pub mod Playback
pub mod System
pub mod Recovery
pub mod Online
