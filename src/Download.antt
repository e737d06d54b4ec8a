-- ===== src/Download.antt =====
-- pkg/download: which versions a module has and where they come from. Mode.antt is the download mode
-- file, Versions.antt the lists of versions, Protocol.antt the download protocol
-- itself, Handlers.antt what is answered to a request.
pub mod Mode
pub mod Versions
pub mod Protocol
pub mod Handlers
mod Tests
