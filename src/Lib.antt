-- ===== src/Lib.antt =====
-- rc-monitor reads the state of a DJI remote controller from a stream of DUML frames.
--
-- The program's core is src/rc_monitor.c with include/rc_monitor.h: checksums, a payload decoder, a
-- parser that assembles frames in a ring buffer and calls back with each decoded state, and a packet
-- builder. emulator/rc_emulator.c runs the same pipeline from keyboard and mouse: its virtual
-- controller is encoded as a payload, built into a packet, fed to the parser, drawn and recorded.
-- src/rc_monitor_jni.c is the bridge to Java: it feeds the parser from arrays of Java, and its callback
-- calls a listener there.
--
-- The files and the code that they model:
--   Base        names of the libraries, lists, words of fixed width, integers, bit fields
--   Crc         duml_crc8 and duml_crc16; Crc/Table has their tables. Crc/Serial defines the
--               bit-serial checksum, Crc/Bounds and Crc/Detect have what follows of the tables
--   State       the types and constants of include/rc_monitor.h
--   Payload     rcm_parse_payload, read_u16_le and rcm_flight_mode_str; Payload/Bytes, Payload/Ranges
--   Scan        the specification of the parser, with no ring, state or fuel: Front is the decision
--               about the front of a string of bytes, Scans repeats it
--   Parser      struct rcm_parser, rcm_create, rcm_destroy, rcm_reset, the ring_ functions,
--               try_decode_frame (scan_header, accept_header, read_body and deliver are its parts) and
--               rcm_feed. Parser/Ring relates the ring to a queue, Parser/Overflow
--               has a push onto a full ring, Parser/Valid the invariant,
--               Parser/Step one round of try_decode_frame, Parser/Decode its loop, Parser/Deliver
--               what a good frame leads to, Parser/Feed rcm_feed,
--               Parser/Chunks a file that is fed in chunks
--   Packet      rcm_build_packet, rcm_build_enable_cmd, rcm_build_channel_request. Packet/Layout has
--               the packet as a list, Packet/RoundTrip and Packet/Delivery what the parser makes of
--               packets, Packet/Corrupt and Packet/Loss of damaged ones, Packet/Limits of long ones,
--               Packet/Recover how the parser finds back to them, Packet/Noise of packets among others
--               and among bytes that belong to none
--   Emulator    emu_state_t and build_payload, with Emulator/RoundTrip. Emulator/Input has
--               handle_key and decay_sticks, Emulator/Input/Pointer handle_mouse; Emulator/Axes and
--               Emulator/Range are about the ranges that they keep, Emulator/Rest about decay_sticks
--               alone. Emulator/Draw has draw_stick, draw_btn and draw_ui as lists of calls of
--               curses, Emulator/Draw/Screen what they show of the input, Emulator/Draw/Bounds where
--               they write. Emulator/Session is a round of the loop of main (Emulator/Session/Step
--               what it does, Emulator/Session/Replay many rounds and their recording),
--               Emulator/Main the rest of main (Emulator/Main/Loop the rounds up to 'q',
--               Emulator/Main/Exit how it ends)
--   Jni         src/rc_monitor_jni.c: jni_rc_callback and the native functions of the class RcMonitor.
--               Jni/Vm has the functions of JNI and what is assumed of them, Jni/Args the arguments of
--               onRcState on both sides, Jni/Delivery that they fit. Jni/Callback is about one call of
--               the listener, Jni/Feed and Jni/Direct about nativeFeed and nativeFeedDirect, Jni/Owned
--               about what nativeInit takes and nativeDestroy gives back, Jni/Lifecycle about any order
--               of calls, Jni/Stream about the way from the array to the listener, Jni/Requests about
--               the arrays with requests. Jni/Monitor has the methods of RcMonitor.java, which test a
--               flag first, Jni/Monitor/Held and Jni/Monitor/Count who of its objects has the context.
--               Jni/Java is a Java machine for the examples
--   Recording   test/verify_recording.c: main and its callback. Recording/Exit has how it ends,
--               Recording/Emulated what it makes of the emulator's recordings
--   Fuzz        test/fuzz_feed.c, test/fuzz_build_packet.c and test/fuzz_payload.c, on one input and on
--               many (Fuzz/Run); Fuzz/Feed and Fuzz/Build are about the first two
--   Readers     java/space/yasha/rcmonitor. Readers/Input is InputEventReader.java: Readers/Input/Loop
--               has its read loop, Readers/Input/Payload what buildPayload encodes. Readers/Usb is
--               UsbRcReader.java with findDjiDevice of RcMonitor.java: Readers/Usb/Choice has the
--               choice of device and interface, Readers/Usb/Poll the read loop, Readers/Usb/Silence
--               when it asks for the channels. Readers/Duss is DussStreamReader.java. Readers/Usb/Held has what a start
--               of either takes and gives back, Readers/Usb/Balance what they hold after many calls.
--               Readers/Local is LocalSocketReader.java, and Readers/Local/Sound has what it holds.
--               Readers/Chain is RcReaderChain.java over the interface RcReader.java:
--               Readers/Chain/Active has which readers run, Readers/Chain/Usb that these two keep the
--               interface's contract
--
-- How the code is modelled. Bytes and unsigned words are natural numbers with their wrap-around
-- written out, and so are the 32 bits of the counter seq of UsbRcReader; int, int16_t and int8_t are
-- integers. A pointer that may be null is an Option. An array
-- is a list; a write out of range, which C leaves undefined, does nothing, and the theorems exclude it
-- by their hypotheses. The calls of the callback are a list of states in the order of the calls, and
-- callback and userdata are no part of the parser's state; a callback that calls the parser again is
-- not modelled. A session keeps what would be recorded, and main hands it to the file if there is one.
--
-- Fuel. try_decode has count + 1 rounds, since each round that goes on consumes a byte. The loop of
-- rcm_feed over try_decode_frame has count + 1 too, since each frame consumes a byte. Running out of
-- fuel is none, and the theorems state that it does not happen. The loop of verify_recording needs
-- more fuel than the file has pieces, since it feeds one in each round; that of fuzz_feed has
-- size + 1 rounds, since each takes a byte; and the loops of InputEventReader need more fuel than
-- the device has bytes, and 25 rounds for an event of 24. The other loops are structural.
--
-- Parameters. The codes of keys and mouse events are those of the curses library (Curses), of which
-- nothing is assumed. Whether calloc succeeds is an argument, and so are what the array on the stack
-- of main holds, whether its file can be opened, and what getopt, getch and getmouse yield. The
-- functions of JNI are those of a Machine over any states of the Java machine. Of them the theorems
-- about the bridge assume Documented, which restates the JNI specification for what the bridge
-- relies on: what a call changes of the attachment of the thread, of the pending exception, of the
-- references and arrays not given back, and of the calls that the listener received. Files are those
-- of a Stdio, of which the theorems assume that each that can be opened ends. The input device is a
-- Source, assumed to keep the documentation of read; the scaling of its values is any function. What
-- the USB service, the socket and the clock answer are arguments. The readers of a chain are those of
-- an RcReader, assumed to start and stop as its comments say.
--
-- Not modelled: what curses makes of its calls and printf of a format, the set-up of the terminal,
-- the logging, a listener that calls the bridge again, calls of the bridge from several threads at
-- once, the wait of a reader's stop for its thread, a step of a reader's thread inside a call of its
-- start or stop, a start of LocalSocketReader that falls into the end of its last thread, and the
-- start and stop of InputEventReader. Of the programs under test/, the unit tests and the generator
-- of seed files, which run on fixed data.
pub mod Base
pub mod Crc
pub mod State
pub mod Payload
pub mod Scan
pub mod Parser
pub mod Packet
pub mod Emulator
pub mod Jni
pub mod Recording
pub mod Fuzz
pub mod Readers
