-- ===== src/Lib.antt =====
-- The verification of wsn_test_platform, a test platform for wireless sensor nodes: a server reaches
-- eight nodes over a board with an FPGA, and a program on an ARM board stands between them.
--
-- Shared holds the library's names, the return codes (common/common.h), tests, list lemmas, and runs
-- of stateful code: a run ends with a value and a state, or it is a fault (undefined behaviour of C),
-- or it is out of fuel. Kernel is the record of system calls, a parameter of what uses them.
-- Protocol holds the constants of app/oint_protocol.h.
--
-- DList models common/dlist.c on a heap of nodes: `dlist_insert`, `dlist_delete` and the others act on
-- addresses; Locate defines when a heap holds a list of cells (`IsList`), Insert, Delete, Access and
-- Walk prove the operations against list functions, and Client forgets the addresses. What `malloc`
-- gives for a node is an argument. The loops have one more round than the list is long.
--
-- Util models app/util.c: the escaping copy, whose counter has one byte, the checksum and the parity
-- check. The copy's fuel of 256 rounds is enough for each copy that ends. What
-- a copy writes is the list of the bytes from the destination's start; the caller checks the room.
--
-- GatherBoard models app/gather_board.c over the ioctl commands of drivers/gpio/oint_gpio.h.
--
-- PacketTransfer models app/packet_transfer.c. State has the structures; the static variable of
-- `process_one_response` is a field. Commands has `handle_command` and `process_one_command`, Packets
-- the values that `process_one_response` and `send_response` build, Responses those functions and
-- `handle_response`, Session the create, destroy, process and reset operations; Reassembly, Answered,
-- Rejects, Invariant, Delivery, Termination, Reset and Frame prove what these do, with Buffer,
-- Fragments, Fits and Room for the copies into the packet buffer. It uses Util for the
-- parity and the copy, GatherBoard for the LEDs, and DList by the data of its lists. The sixteen bytes
-- from the board are an argument, since the source has yet to read them. The fuel of
-- `packet_transfer_process` is one more than the bytes that the peer still sends.
--
-- HexParser models module/hex_parser/hex_parser.c on the bytes of a file and of the line buffer: Scan
-- has sscanf's conversions, Digits and Records what they read of digits, Lines one line, Files all.
--
-- Reprogrammer models app/reprogrammer.c, which receives a HEX file over a socket and goes through it
-- with HexParser; 2^31 rounds of fuel are enough for each file, whose length is an int.
--
-- GpioDriver models drivers/gpio/oint_gpio.c, the driver behind the ioctl commands of GatherBoard.
--
-- FtpUploader models deployer/ftp_uploader.c: Replies has the parsers of the server's replies, Steps,
-- Address and Unclosed prove what they read. The fuel of an upload bounds the blocks of the file.
--
-- TelnetCommander models deployer/telnet_commander.c with libtelnet as a parameter: Matching has the
-- search for the expected texts, and Waiting proves that a wait ends. The fuel of a wait bounds the
-- blocks; one more than the bytes to come is enough.
--
-- Deployer models deployer/deployer.c: the steps of a deployment over an interface of the two clients,
-- Config the parsers of the configuration, Setup the creation, set-up and release; Commands proves
-- what is read of the command file, and Events follows the events that are told, as far as the calls
-- of the clients come back; the telnet client's exit(1) ends a run. Main is deployer/main.c, on the
-- files of Logger.
--
-- Server models app/main.c: the loop over the two ports, with PacketTransfer and Reprogrammer behind
-- them. One number bounds the rounds of the loop, another the work for one client.
--
-- PcapFile models module/pcap/pcap_save_file.c and module/pcap/test_pcap_save_file.c: Words has numbers
-- in bytes, Reader a reader of the .pcap format that does not use the writer, Names the bound on the
-- file's name, RoundTrip proves that what is saved is read, and Limits has what the format cannot hold.
-- The width of a long is a parameter.
--
-- PacketPrinter models module/pcap/pcap_packet_process.c by the text that it prints: Headers and Payload
-- have its functions, Undump reads a printed payload back, Clock proves the times and Extent which
-- packets are read beyond their end. As many rounds as bytes are enough for a payload.
--
-- Serial models module/serial/serial.c, with the attributes of a line as a record of flags, and Terminal
-- module/serial/main.c, where one number bounds the rounds of the loops; Settings and Refusals prove
-- what a line is set to.
--
-- Logger models common/logger.c; Open follows its files through any calls.
--
-- Not modelled: printing elsewhere than in PacketPrinter and deployer/main.c, the release of memory, and
-- the programs of module/pcap that only call libpcap and print. cJSON and libtelnet are other projects'
-- libraries.
pub mod Shared
pub mod Kernel
pub mod Protocol
pub mod DList
pub mod Util
pub mod GatherBoard
pub mod PacketTransfer
pub mod HexParser
pub mod Reprogrammer
pub mod GpioDriver
pub mod FtpUploader
pub mod TelnetCommander
pub mod Logger
pub mod Deployer
pub mod Server
pub mod PcapFile
pub mod PacketPrinter
pub mod Serial
