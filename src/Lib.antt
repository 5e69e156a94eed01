-- ===== src/Lib.antt =====
-- Verification library of snbmodules, the DUNE DAQ modules that read out supernova-burst data from
-- files and transfer it between hosts.
--
-- The program has two halves. The readout half keeps raw data in a latency buffer and answers
-- data requests with fragments (include/snbmodules/readout). The transfer half has a bookkeeper
-- and clients that exchange notifications about groups of file transfers
-- (include/snbmodules, src/bookkeeper, src/client, src/common).
--
-- RequestHandler: include/snbmodules/readout/SNBRequestHandlerModel.hpp and
--   detail/SNBRequestHandlerModel.hxx. State is the members that the functions change; Pieces is
--   the loop of get_fragment_pieces, Request the rest of it with data_request and
--   create_fragment_header, Cleanup is cleanup and cleanup_check, Waiting is issue_request and
--   check_waiting_requests. These are one thread's run of each function; Protocol is the step
--   relation of all threads over m_cv_mutex, m_cv, m_cleanup_requested and m_requests_running: a
--   thread sleeps on m_cv until a notify_all, and wakes for no other cause. Buffer is the interface of the latency buffer, a template parameter of the class, whose laws are what
--   the buffers of datahandlinglibs document: a sequence with pop at the front. Whether
--   an iterator behind the last element can be dereferenced is a parameter of the buffer. `none`
--   stands for that dereference, and for that of front() or back() of an empty buffer. Counters wrap at 32 bits. The fuel of
--   pop_loop is the occupancy, which each round lowers. A send of a fragment is a Boolean: it
--   succeeds, or throws an ers::Issue. Constant fields of the fragment header (its size, its
--   fragment type) and log messages are left out.
-- Enums: include/snbmodules/common/status_enum.hpp, protocols_enum.hpp and notification_enum.hpp.
-- FilePath: the removal of "./" from paths in include/snbmodules/transfer_metadata.hpp,
--   include/snbmodules/group_metadata.hpp and src/client/transfer_client.cpp, and what the code
--   uses of std::filesystem::path. The fuel of strip_loop is one more than the length.
-- IpFormat: include/snbmodules/ip_format.hpp. `none` is std::invalid_argument, or what std::stoi
--   throws.
-- Metadata: include/snbmodules/transfer_metadata.hpp and src/common/transfer_metadata.cpp. Transfer is
--   the class, Json its export and import; dump and parse of nlohmann::json are parameters, with
--   the hypothesis that parse reads back what dump writes (Codec is a concrete pair). A JSON object
--   is the function from the keys that the code uses. The clock is an argument. Times are unbounded
--   integers; sizes wrap at 64 bits where the code multiplies them.
-- Notification: include/snbmodules/notification_interface.hpp and
--   src/common/notification_interface.cpp, with Lookup for lookups_connections. Whether the n-th
--   try_send succeeds, what try_receive returns and what a lookup finds are parameters; `tries` is
--   the fuel, as in the code.
-- Group: include/snbmodules/group_metadata.hpp and src/common/group_metadata.cpp. Files are
--   pointers into a heap; `none` is the use of the first file of an empty group. Import is
--   from_string, with the parser of nlohmann::json as a parameter.
-- Session: include/snbmodules/transfer_session.hpp and src/client/transfer_session.cpp. World has the
--   environment (clock, delivery, JSON printers and the transfer interface of
--   include/snbmodules/interfaces/transfer_interface_abstract.hpp as parameters) and the state; Files
--   the operations on one file, Groups those on all, Runs any sequence of them. The waits of one
--   second are left out.
-- Bookkeeper: include/snbmodules/bookkeeper.hpp and src/bookkeeper/bookkeeper.cpp. State is the
--   members with the heap of files, Operations and Messages the member functions, Work the rounds of
--   do_work. The clock, the delivery of messages, and the parsers of JSON are parameters (Surroundings). `none` is an
--   exception, which leaves the handler. A value of a key that has the wrong type counts as a text that
--   cannot be parsed.
-- Client: include/snbmodules/transfer_client.hpp and src/client/transfer_client.cpp, with the
--   constructor of a session. State is the members with the heap of files; Sessions, Sharing, Transfers,
--   Messages, Connection and Work (the loops) are the member functions. Parameters (ClientEnv) are
--   those of a session, the parsers of JSON, the file system (a scan reads one state of the directories, given as a tree) and
--   the making of a transfer interface, whose missing value is one of its states. `none` is an
--   exception, or the use of the first file of an empty group. Log messages and thread waits are left out.
-- DataHandling: include/snbmodules/readout/SNBDataHandlingModel.hpp and
--   detail/SNBDataHandlingModel.hxx. Schedule is the loop of postprocess_schedule, over the interface of
--   an ordered latency buffer; Timesync is run_timesync; Items is
--   transform_and_process, process_item and dispatch_requests; Runs is start
--   and stop with the request handler. What a round reads (clock, baton, buffer, DAQ
--   time) is an argument. `none` is the use of an element that is not there. A failed send of a time
--   sync is only reported by the code, so its result is left out.
-- Interfaces: include/snbmodules/interfaces. Scp is transfer_interface_SCP.hpp, with a session over it in
--   Scp/Sessions; Rclone is transfer_interface_RClone.hpp (State, Request with the printed requests,
--   Files, and Work with the rounds of do_work); Bittorrent is transfer_interface_bittorrent.hpp and
--   src/common/transfer_interface_bittorrent.cpp (State, Alerts with do_work, Names, Files, Settings).
--   The shell, librclone, libtorrent, the JSON library, the clock and the file system are parameters.
--   The thread of an interface is modelled by its rounds; what the operations change meanwhile is an
--   argument of each round for BitTorrent, and left out for RClone. `none` is an exception, the use of a null pointer, or of a buffer that is not written or too small.
-- FileSource: include/snbmodules/readout/FileSourceModel.hpp and detail/FileSourceModel.hxx. Opening a
--   file is a parameter. The fuel of run_produce is the number of rounds for which the run marker
--   stays set. `none` is an exception, or the use of a reader that is not there.
-- FileReader: src/readout/FileReaderBase.cpp and include/snbmodules/readout/FileReaderBase.hpp
--   (Base), over the interface of include/snbmodules/readout/FileSourceConcept.hpp (Concept), which
--   the file source fills. `none` is the use of a stream or a reader that is not there, or an
--   exception in a source's thread.
-- Common: texts (lists of character codes), maps, integers, std::to_string and std::stoi.
--
-- Not modelled: the DAQ plugins, the message library and its wrapper, libtorrent, librclone and ssh
-- themselves, threads of the transfer half, and logging.

mod Common
pub mod RequestHandler
pub mod Enums
pub mod FilePath
pub mod IpFormat
pub mod Metadata
pub mod Notification
pub mod Group
pub mod Session
pub mod FileSource
pub mod FileReader
pub mod Bookkeeper
pub mod Client
pub mod DataHandling
pub mod Interfaces
