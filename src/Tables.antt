-- ===== src/Tables.antt =====
-- USBPcapDriver/USBPcapTables.c: the endpoint table and the table of unknown URBs.
-- RTL_GENERIC_TABLE is the system's: a parameter, a table of elements with a 64-bit key (the pipe
-- handle or the IRP's address), with its documented behaviour as laws. The compare routines of
-- the source order by that key. The spin lock makes each call one step.
pub mod Generic
pub mod Endpoint
pub mod UrbIrp
pub mod Assoc
mod Tests
