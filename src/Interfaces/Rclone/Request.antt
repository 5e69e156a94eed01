-- ===== src/Interfaces/Rclone/Request.antt =====
-- The requests that include/snbmodules/interfaces/transfer_interface_RClone.hpp prints.
use snbmodules.Common.{
  suc, Bool, List, [], ◌∷◌, ◌++◌, Text, text, ℤ, pos, negsuc, print_ℕ, ◌==◌, if◌then◌else◌,
}
use snbmodules.Metadata.Transfer.{TransferMetadata, get_file_name}
use snbmodules.Interfaces.Rclone.State.{Params}

-- %d of an int.
unfoldable pub print_int : ℤ → Text
unfolding print_ℕ
print_int (pos n) = print_ℕ n
print_int (negsuc n) = text "-" ++ print_ℕ (suc n)

abbrev pub quote : Text → Text
quote t = 34 ∷ (t ++ 34 ∷ [])

abbrev pub entry : Text → Text → Text
entry k v = quote k ++ (text ": " ++ v)

abbrev pub entries : List Text → Text
entries [] = []
entries (e ∷ []) = e
entries (e ∷ f ∷ es) = e ++ (text "," ++ entries (f ∷ es))

abbrev pub object : List Text → Text
object es = text "{" ++ (entries es ++ text "}")

abbrev pub flag : Bool → Text
flag b = if b then text "true" else text "false"

-- operator/ of a directory and a name without slashes.
unfoldable pub append_name : Text → Text → Text
append_name [] name = name
append_name (c ∷ []) name = if c == 47 then c ∷ name else c ∷ (47 ∷ name)
append_name (c ∷ d ∷ s) name = c ∷ append_name (d ∷ s) name

unfoldable pub rate_request : Params → Text
rate_request p = object (entry (text "rate") (quote p.bwlimit) ∷ [])

unfoldable pub cache_request : Text
cache_request =
    object (entry (text "vfs") (object (entry (text "CacheMaxSize") (text "0") ∷ [])) ∷ [])

unfoldable pub pause_request : Text
pause_request = object (entry (text "bytesPerSecond") (text "0") ∷ [])

-- The limit is not quoted.
unfoldable pub resume_request : Params → Text
resume_request p = object (entry (text "bytesPerSecond") p.bwlimit ∷ [])

unfoldable pub job_request : ℤ → Text
unfolding print_int
job_request id = object (entry (text "jobid") (print_int id) ∷ [])

-- The numbers stand in the order of the arguments: the threads of a transfer under "Checkers", and the
-- checkers under "MultiThreadStreams".
unfoldable pub common_config : Params → List Text → List Text
unfolding print_int
common_config p cutoff =
    entry (text "BindAddr") (quote [])
    ∷ entry (text "MultiThreadSet") (text "true")
    ∷ entry (text "Transfers") (print_int p.simult_transfers)
    ∷ entry (text "Checkers") (print_int p.transfer_threads)
    ∷ entry (text "MultiThreadStreams") (print_int p.checkers_threads)
    ∷ entry (text "MultiThreadCutoff") (quote p.chunk_size)
    ∷ (cutoff
        ++ (entry (text "UseMmap") (flag p.use_mmap)
            ∷ entry (text "CheckSum") (flag p.checksum)
            ∷ entry (text "BufferSize") (quote p.buffer_size)
            ∷ entry (text "ErrorOnNoTransfer") (text "true")
            ∷ []))

unfoldable pub copy_request : Text → Text → Text → List Text → Text
copy_request source remote target config = object (
    entry (text "srcFs") source
    ∷ entry (text "srcRemote") (quote remote)
    ∷ entry (text "dstFs") (quote (text "/"))
    ∷ entry (text "dstRemote") (quote target)
    ∷ entry (text "_config") (object config)
    ∷ entry (text "_async") (text "true")
    ∷ [])

unfoldable pub http_request : Params → TransferMetadata → Text → Text → Text
unfolding common_config copy_request append_name print_int
http_request p m relative dest =
    copy_request
      (object (
        entry (text "type") (quote (text "http"))
        ∷ entry (text "url")
            (quote (text "http://" ++ (m.src.ip ++ (text ":" ++ print_int p.port))))
        ∷ []))
      relative (append_name dest (get_file_name m))
      (common_config p (entry (text "StreamingUploadCutoff") (quote p.chunk_size) ∷ []))

unfoldable pub sftp_request : Params → TransferMetadata → Text → Text
unfolding common_config copy_request append_name print_int
sftp_request p m dest =
    copy_request
      (object (
        entry (text "type") (quote (text "sftp"))
        ∷ entry (text "host") (quote m.src.ip)
        ∷ entry (text "user") (quote p.user)
        ∷ entry (text "port") (quote (print_int p.port))
        ∷ entry (text "key_file") (quote (text "/home/ljoly/.ssh/id_rsa"))
        ∷ entry (text "disable_concurrent_writes") (quote (text "false"))
        ∷ entry (text "concurrency") (quote (print_int p.simult_transfers))
        ∷ []))
      (text "../.." ++ m.file_path) (append_name dest (get_file_name m)) (common_config p [])
