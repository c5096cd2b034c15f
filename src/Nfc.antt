-- ===== src/Nfc.antt =====
-- src/nfc: the NDEF parsers, the MFRC522 adapter, the backend that serves a reader, and its handle.
pub mod Message
pub mod Record
pub mod Mfrc522
pub mod Backend
pub mod Reader
pub mod Startup
