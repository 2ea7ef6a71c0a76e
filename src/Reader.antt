-- ===== src/Reader.antt =====
-- Sources/USBReader.cpp: `USBReader` owns the USB device, reads packets from the PSP into the
-- receive thread's queue and writes those of the send thread's queue.
pub mod State
pub mod Transfers
pub mod Receive
pub mod Device
pub mod Opening
pub mod Loop
pub mod Retries
pub mod Control
pub mod Fields
pub mod Delivery
pub mod Reads
pub mod Stream
pub mod ShortTail
pub mod Stop
pub mod Absent
pub mod UnpluggedPass
pub mod Unplugged
pub mod Threads
pub mod Closing
pub mod Reading
pub mod Running
pub mod Sending
pub mod Duplex
pub mod Reopened
pub mod Waiting
pub mod Writing
pub mod Safety
pub mod SafeRun
