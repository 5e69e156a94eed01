-- ===== src/Client/State.antt =====
-- The members of the transfer client (include/snbmodules/transfer_client.hpp) and what it works on:
-- the files' metadata on a heap, the clock, and the log of messages. The file system, the parsers of
-- nlohmann::json and the construction of transfer interfaces are parameters.
use snbmodules.Common.{
  ℕ, Bool, Option, List, [], ◌∷◌, ◌++◌, Text, text, text_eq, Map, if◌then◌else◌,
}
use snbmodules.IpFormat.Address.{IpFormat}
use snbmodules.Metadata.Json.{Object}
use snbmodules.Notification.Interface.{Connections, Attempt}
use snbmodules.Group.Metadata.{Heap}
use snbmodules.Group.Import.{GroupReader}
use snbmodules.Session.World.{Env, Session, World}

-- What directory_iterator gives: regular files, and directories with what is in them. A scan reads one
-- state of the directories.
pub data Entries : Type 0 where
  nothing : Entries
  regular : Text → Entries → Entries
  directory : Text → Entries → Entries → Entries

-- open_interface makes the transfer interface of a session and may change the files' metadata (a
-- BitTorrent uploader writes magnet links); `missing` is the interface that was not made.
pub record ClientEnv : Type 1 where
  pub env : Env
  pub parse : Text → Option Object
  pub reader : GroupReader
  pub has_port : Text → Bool
  pub open_interface : Session → IpFormat → Heap → env.interface.State × Heap
  pub missing : env.interface.State
  pub exists : Text → Bool
  pub file_size : Text → ℕ
  pub entries : Text → Entries
  pub read_file : Text → Text

-- A session of the client: its address and its transfer interface stand beside what its operations
-- read.
pub record ClientSession (e : ClientEnv) : Type 0 where
  pub session : Session
  pub ip : IpFormat
  pub interface : e.env.interface.State

-- The issues that are reported: the source and the target of a message for another client; its
-- source and its name; a session that is not found; a protocol that is unknown; a file that does not
-- exist; a missing port or connection; a file that its group does not expect or have.
pub data Issue : Type 0 where
  wrong_destination not_handled : Text → Text → Issue
  session_not_found invalid_protocol file_not_exist : Text → Issue
  no_port connection_not_found file_not_expected : Issue

-- Pointers from `next` on are free.
pub record Client (e : ClientEnv) : Type 0 where
  pub client_id : Text
  pub listening_ip : IpFormat
  pub listening_dir : Text
  pub connections : Connections
  pub sessions : List (ClientSession e)
  pub available_files : Map ℕ
  pub my_conn : Text
  pub heap : Heap
  pub next : ℕ
  pub instant : ℕ
  pub log : List Attempt
  pub session_issues : List snbmodules.Session.World.Issue
  pub issues : List Issue

module _ {e : ClientEnv} where
  unfoldable pub warn : Issue → Client e → Client e
  warn i c = record c { issues = i ∷ c.issues }

  -- What the operations of a session work on, and the client behind them.
  abbrev pub world_of : ClientSession e → Client e → World e.env
  world_of s c = record {
    heap = c.heap;
    instant = c.instant;
    log = c.log;
    interface = s.interface;
    issues = c.session_issues;
  }

  abbrev pub behind : World e.env → Client e → Client e
  behind w c = record c {
    heap = w.heap;
    instant = w.instant;
    log = w.log;
    session_issues = w.issues;
  }

  -- generate_session_id; `dest_id` is empty by default.
  unfoldable pub generate_session_id : Text → Text → Client e → Text
  generate_session_id transferid dest_id c =
      (if text_eq dest_id [] then c.client_id else dest_id) ++ text "_ses" ++ transferid
