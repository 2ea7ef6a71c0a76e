-- ===== src/Lib.antt =====
-- CWUSB connects a PSP, whose USB stack sends and receives network frames in USB packets, to the
-- XLink Kai engine, which sends and receives them in UDP datagrams. This library models the
-- program's C++ code and states what its parts do.
--
-- The parts, and the files that model them:
--
--   Base       What the parts share: bytes, byte strings and their search, 16- and 32-bit words
--              with their wrap-around, `memcpy` with its bounds, results and faults.
--   Usb        Includes/USBConstants.h: the protocol's constants, the packets and the headers.
--   SendThread Includes/USBSendThread.h, Sources/USBSendThead.cpp: `USBSendThread` cuts a frame
--              for the PSP into USB packets (`StartThread` is `run_once` and `run_passes`,
--              `AddToQueue` is `add_to_queue`, and so on).
--   ReceiveThread
--              Includes/USBReceiveThread.h, Sources/USBReceiveThread.cpp: `USBReceiveThread` puts
--              the packets of a frame together again and gives the frame to the connection.
--   Reader     Includes/USBReader.h, Sources/USBReader.cpp: `USBReader` opens the device, reads
--              packets into the receive thread's queue, writes those of the send thread's queue,
--              and restarts the device after errors. State has the members, Transfers the bulk
--              transfers, Receive `ReceiveCallback` and `HandleAsynchronous`, Device `Open`,
--              `HandleClose` and `HandleError`, Loop the body of the thread, Control the methods
--              that other threads call. Reading, Running, Sending and Duplex follow the loop
--              while packets go both ways, Unplugged lets the other threads use the queues
--              between the passes, Threads follows what a pass leaves alone, Closing joins the
--              thread in `Close`, and Reopened and Waiting follow it when the PSP is back. The
--              other modules are proofs.
--   XLinkKai   Includes/XLinkKaiConnection.h, Sources/XLinkKaiConnection.cpp:
--              `XLinkKaiConnection` keeps up the connection to the engine. Protocol has the
--              texts, Connection `Open`, `Send`, `Connect` and `Close`, Receive
--              `ReceiveCallback`, Loop the body of the thread.
--   Logger     Includes/Logger.h, Sources/Logger.cpp: the levels, and where `Log` writes a message.
--   Settings   Includes/SettingsModel.h, Sources/SettingsModel.cpp: `SettingsModel`, saved to the
--              text of a file and loaded from it.
--   Main       main.cpp: the loop that opens both sides and the start of their threads;
--              Surroundings has the program's path, the signal handler, the settings and the
--              logger, End the wait, the end and the whole.
--   NetConversion
--              Includes/NetConversionFunctions.h: `PrettyHexString`, whose text is logged, and the
--              functions that read a packet's words. Dump is a reader of that text.
--   Headers    Includes/NetworkingHeaders.h: the packed headers of packets as bytes, and the
--              constants that say where their fields are. No source file uses them yet.
--   Timer      Includes/Timer.h, Sources/Timer.cpp: a stopwatch that nothing uses.
--   Bridge     The two directions, from the packets of one side to those of the other, for one
--              frame and for any number, and after a restart of the device. System has the
--              passes of the four threads as steps of one state, in any order; Awaiting, Passes,
--              Receives, Emits and Together say what every step keeps, Interleaving what comes
--              out, Draining and Finishing how all that waits gets through, and LostPacket what a
--              full queue makes of a frame.
--   Tests      The properties at concrete inputs.
--
-- The reader's thread fills the receive thread's queue and empties the send thread's outgoing
-- queue. The receive thread calls `XLinkKaiConnection::Send`; here a pass returns the message,
-- and `Bridge.FromPsp` gives it to `send_data`, or all of them to `send_all`.
-- `XLinkKaiConnection::ReceiveCallback` calls `USBReader::Send`; here it returns `to_usb`, and
-- `Bridge.ToPsp` and `Bridge.ManyToPsp` give that to the reader. In `Bridge.System` the pass of
-- the connection's thread is the whole `XLinkKai.Loop.pass`, and `Handed` gives what it hands
-- over to the send thread's queue.
--
-- A datagram of `Output` has the endpoint that it is sent to, which `datagram_of` leaves out where
-- only the bytes matter. Whether the socket throws is an argument of every method that sends; in
-- `given`, `send_all` and the steps of `Bridge.System` too.
--
-- `PspStreams` is how the PSP sends frames: full packets and a last one, none shorter than the 12
-- bytes below which `USBReader::ReceiveCallback` drops a packet. A frame whose last packet would
-- carry 1 to 3 bytes behind others is therefore not among them.
--
-- State is a record that a method takes and returns. A thread's loop is one function for its
-- body and one that repeats it; what libusb, the socket and the clock do in a pass is an
-- argument. A method that may throw, or write outside an array, returns a `Result` with the
-- fault. An `int` is its pattern of 32 bits, a `uint16_t` is taken modulo 2 ^ 16.
--
-- `poll` of Boost's service runs the callback for every datagram that waits, which
-- `XLinkKai.Loop.receive_waiting` does for the datagrams of a pass, each with its own time. The
-- socket's receive stores the sender in `mRemote`, so a datagram has its sender.
--
-- Fuel: `make_packets` has one round for each byte of the frame and one more, and every round
-- takes at least one byte; the passes of a thread are as many as the caller says, since the
-- code's loops end only on a request; the loop of `main` is out of fuel when its list of events
-- ends before its condition fails; `send_packets` has one round for each packet of the queue,
-- which only shrinks.
--
-- `std::to_string` of an `int` has at most ten digits, which is the fuel of `digits_before`.
--
-- `hex_digits` has eight rounds, as many as a 32-bit number has hexadecimal digits;
-- `PrettyHexString` is modelled for data of fewer than 2 ^ 32 bytes, since its `unsigned int`
-- counter never passes the size of longer data.
--
-- While both sides work, `main` waits: what the threads make of the program until the signal is
-- the parameter `works` of `main_program`. `realpath` and the files are parameters too.
--
-- Not modelled: the text of log entries and the calls of the log, sleeps, the thread that waits
-- for signals, and the races of code that reads a queue outside its mutex. A queue's operations
-- and a pass of a thread are single steps, which `SendThread.Interleaving`,
-- `ReceiveThread.Interleaving` and `Bridge.System` take in any order. Boost's parsing of
-- addresses and libusb's calls are parameters.
pub mod Base
pub mod Usb
pub mod SendThread
pub mod ReceiveThread
pub mod Logger
pub mod Settings
pub mod Reader
pub mod XLinkKai
pub mod Main
pub mod Bridge
pub mod Headers
pub mod NetConversion
pub mod Timer
pub mod Tests
