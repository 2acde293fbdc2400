-- ===== src/Lib.antt =====
-- USBPcap: the circular buffer, devices, tables and URB analysis of the capture driver
-- (USBPcapDriver), and the parser, address filter and descriptors of the capturing process
-- (USBPcapCMD).
--
-- The driver sits in the stacks of the USB hubs. Each packet that it sees becomes a pcap record in
-- the circular buffer of its root hub; a process that holds the capture handle of the control device
-- `USBPcapX` sets the buffer up, chooses the devices and reads the records, and cuts the stream into
-- records again to write those that match its filter.
--
-- Files, with the source that each models:
-- - Format: the pcap headers and packet header (USBPcapDriver/include/USBPcap.h) as bytes.
-- - Buffer: USBPcapDriver/USBPcapBuffer.c. `RingData` is the buffer's part of USBPCAP_ROOTHUB_DATA;
--   `get_buffer_free`, `buffer_write_unsafe`, `buffer_read` … are the functions of those names behind
--   the prefix USBPcapBuffer. Buffer/Packet has USBPcapBufferStorePacket, Buffer/Setup the calls that
--   set up, resize, empty and free the buffer, Buffer/Irp the read requests and the logging calls.
-- - Queue: USBPcapDriver/USBPcapQueue.c, the cancel-safe queue of pended reads.
-- - Filter: the address filter of USBPcapDriver/USBPcapHelperFunctions.c and USBPcapCMD/iocontrol.c.
-- - Tables: USBPcapDriver/USBPcapTables.c, over the system's generic table as a parameter.
-- - Control: USBPcapDriver/USBPcapGenReq.c and USBPcapDriver/USBPcapDeviceControl.c, the requests to
--   the control device; it calls Queue, Filter and Buffer as the source does.
-- - Urb: USBPcapDriver/USBPcapURB.c. `analyze_urb` is USBPcapAnalyzeURB; Urb/Setup has the requests
--   that become control transfers, Urb/Packets what each transfer is logged as (Urb/Packets/Isoch the
--   isochronous ones), Urb/Interfaces USBPcapParseInterfaceInformation, Urb/Analyze the two switches.
--   Urb/Dispatch has DkInDevCtl, DkTgtInDevCtl and its completion (USBPcapDriver/USBPcapDeviceControl.c).
-- - Device: the device objects of the driver. Device/Data has the data of a device with the reference
--   count of the root hub data (USBPcapDriver/USBPcapFilterManager.c), Device/Attach AddDevice,
--   DkCreateAndAttachTgt and their undoing, Device/Control the control device
--   (USBPcapDriver/USBPcapRootHubControl.c), Device/Forward the requests that go on
--   (USBPcapDriver/USBPcapMain.c, USBPcapDriver/USBPcapPower.c), Device/Relations and Device/Pnp
--   USBPcapDriver/USBPcapPnP.c, Device/Start what a device that starts is asked
--   (USBPcapDriver/USBPcapHelperFunctions.c).
-- - Hwids: the hardware ids of root hubs as the driver reads them (USBPcapIsDeviceRootHub in
--   USBPcapDriver/USBPcapHelperFunctions.c) and as the client lists them (USBPcapCMD/roothubs.c), and
--   the search for the upper filter (USBPcapCMD/filters.c).
-- - Capture: histories of requests, completions, reads and filter changes, from the URB to the file.
-- - Client/Parser: `process_data` of USBPcapCMD/thread.c and what it calls; the operating system's
--   answers are the parameter `Outside`.
-- - Client/Descriptors: USBPcapCMD/descriptors.c, the records of the devices' descriptors that the
--   client puts behind the global header of its file.
-- - Client/Json: the texts and errors in JSON in USBPcapCMD/cmd.c.
-- - Client/Matches: the ids of the connected devices and the choice of the interface in
--   USBPcapCMD/cmd.c (populate_device_metadata, auto_select_interface).
-- - Client/TransferType: the names of the transfer types in USBPcapCMD/cmd.c.
-- - Base: numbers, lists, 32-bit words and bits that the others share.
--
-- State is passed explicitly. What runs under a lock is one step; histories are lists of calls or
-- requests. 32-bit arithmetic wraps where the source's does. A NULL pointer is `none`.
--
-- Loops are structural, or run on fuel. The clean-up of the queue gets one round more than the queue
-- has requests, the address list one more than it has characters, the doubling of a capacity 32
-- rounds, and the parser of interface information one round per byte, which is enough as every round
-- takes one of them. The freeing of a table and the parser's loop take their fuel as an argument.
--
-- Not modelled: the driver's entry; enumeration, the registry calls, the rest of the command line and
-- the event loop of the process; the Go programs. The system's structures' sizes and its search in a
-- configuration descriptor are parameters of Urb. Flushing the output file and messages are left out
-- of what is modelled, as is the cancellation of a pended read by the system itself.
pub mod Base
pub mod Format
pub mod Buffer
pub mod Queue
pub mod Filter
pub mod Tables
pub mod Control
pub mod Urb
pub mod Device
pub mod Hwids
pub mod Client
pub mod Capture
