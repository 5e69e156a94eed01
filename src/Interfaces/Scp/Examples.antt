-- ===== src/Interfaces/Scp/Examples.antt =====
-- The theorems on SCP at a session of two files.
use snbmodules.Common.{◌*◌, ℕ, true, false, none, some, refl, ◌≡◌, ◌≢◌, [], text, pos}
use snbmodules.Enums.Status.{Status, waiting}
use snbmodules.Session.World.{Env, TransferInterface, World, downloader}
use snbmodules.Session.Files.{download_checked}
use snbmodules.Interfaces.Samples.{file, session}
use snbmodules.Interfaces.Scp.Files.{ScpEnv, Scp, make_scp, scp_command}
use snbmodules.Interfaces.Scp.Sessions.{over, Copied, download_checked-Copied}

-- No command succeeds.
abbrev env : ScpEnv
env = record { clock = λ n. pos n; system = λ n c. false }

abbrev no_interface : TransferInterface
no_interface = record {
  State = Unit;
  upload_file = λ m s. (true, m, s);
  download_file = λ dest m s. (true, m, s);
  pause_file = λ m s. (true, m, s);
  resume_file = λ m s. (true, m, s);
  hash_file = λ m s. (true, m, s);
  cancel_file = λ m s. (true, m, s);
}

abbrev around : Env
around = record {
  clock = λ n. pos (10 * n);
  delivers = λ n. true;
  dump = λ j. [];
  dump_group = λ j. [];
  interface = no_interface;
}

abbrev scp : Scp
scp = record {
  user = text "me";
  use_password = false;
  is_uploader = false;
  files_being_transferred = [];
  instant = 5;
  commands = [];
}

make_scp_run :
    make_scp (record { user = some (text "me"); use_password = none }) false
    ≡ some (record scp { instant = 0 })
unfolding make_scp
make_scp_run = refl

abbrev world : Status → World (over env around)
world now = record { heap = file now; instant = 1; log = []; interface = scp; issues = [] }

command_run :
    scp_command scp (text "/w") (file waiting 98)
    ≡ text "scp -o PasswordAuthentication='no' me@10.0.0.1:/ab /w"
unfolding scp_command
command_run = refl

download_checked-Copied_example :
    ((download_checked (session downloader) (text "/w") true 0 (world waiting)).0 ≡ false)
    × Copied false
        (file waiting 0)
        ((download_checked (session downloader) (text "/w") true 0 (world waiting)).1.heap 0)
    × ((q : ℕ)
        → q ≢ 0
        → (download_checked (session downloader) (text "/w") true 0 (world waiting)).1.heap q
          ≡ file waiting q)
download_checked-Copied_example =
    download_checked-Copied env around (session downloader) 0 (world waiting) (text "/w") refl
