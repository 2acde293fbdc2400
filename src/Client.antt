-- ===== src/Client.antt =====
-- The capturing process, USBPcapCMD: the part that turns what it reads into the output file.
pub mod Parser
pub mod TransferType
pub mod Descriptors
pub mod Json
pub mod Matches
