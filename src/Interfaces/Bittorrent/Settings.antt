-- ===== src/Interfaces/Bittorrent/Settings.antt =====
-- set_settings of src/common/transfer_interface_bittorrent.cpp: the settings of the session of libtorrent,
-- in the order in which they are set, a later one in place of an earlier one.
use snbmodules.Common.{
  ℕ, ◌*◌, Bool, true, false, List, [], ◌∷◌, ◌++◌, Text, text, ℤ, pos, negsuc, if◌then◌else◌,
}

pub data Setting : Type 0 where
  flag : Bool → Setting
  number : ℤ → Setting
  words : Text → Setting

abbrev pub Settings : Type 0
Settings = List (Text × Setting)

abbrev block_size : ℕ
block_size = 1024 * 1024

-- `all_alerts` is lt::alert_category::all.
abbrev common_settings : ℤ → Text → Text → Settings
common_settings all_alerts ip listen_port =
    (text "enable_dht", flag false)
    ∷ (text "auto_manage_interval", number (pos 60))
    ∷ (text "auto_manage_startup", number (pos 1))
    ∷ (text "min_reconnect_time", number (pos 1))
    ∷ (text "max_failcount", number (pos 10))
    ∷ (text "outgoing_interfaces", words ip)
    ∷ (text "strict_end_game_mode", flag false)
    ∷ (text "smooth_connects", flag false)
    ∷ (text "allow_multiple_connections_per_ip", flag true)
    ∷ (text "announce_to_all_tiers", flag true)
    ∷ (text "announce_to_all_trackers", flag true)
    ∷ (text "auto_sequential", flag true)
    ∷ (text "incoming_starts_queued_torrents", flag true)
    ∷ (text "enable_incoming_tcp", flag true)
    ∷ (text "enable_outgoing_tcp", flag true)
    ∷ (text "enable_incoming_utp", flag false)
    ∷ (text "enable_outgoing_utp", flag false)
    ∷ (text "enable_lsd", flag false)
    ∷ (text "enable_natpmp", flag false)
    ∷ (text "enable_upnp", flag false)
    ∷ (text "prefer_rc4", flag false)
    ∷ (text "prefer_udp_trackers", flag true)
    ∷ (text "rate_limit_ip_overhead", flag false)
    ∷ (text "aio_threads", number (pos 1))
    ∷ (text "hashing_threads", number (pos 1))
    ∷ (text "disk_io_read_mode", number (pos 3))
    ∷ (text "disk_io_write_mode", number (pos 3))
    ∷ (text "allowed_enc_level", number (pos 3))
    ∷ (text "allowed_fast_set_size", number (pos 5))
    ∷ (text "seed_choking_algorithm", number (pos 1))
    ∷ (text "choking_algorithm", number (pos 0))
    ∷ (text "in_enc_policy", number (pos 2))
    ∷ (text "out_enc_policy", number (pos 2))
    ∷ (text "mixed_mode_algorithm", number (pos 0))
    ∷ (text "suggest_mode", number (pos 0))
    ∷ (text "close_file_interval", number (pos 0))
    ∷ (text "inactivity_timeout", number (pos 10))
    ∷ (text "request_queue_time", number (pos 50))
    ∷ (text "peer_timeout", number (pos 20))
    ∷ (text "request_timeout", number (pos 10))
    ∷ (text "predictive_piece_announce", number (pos 20))
    ∷ (text "whole_pieces_threshold", number (pos 20))
    ∷ (text "mmap_file_size_cutoff", number (pos 0))
    ∷ (text "upload_rate_limit", number (pos 0))
    ∷ (text "download_rate_limit", number (pos 0))
    ∷ (text "unchoke_slots_limit", number (negsuc 0))
    ∷ (text "max_failcount", number (pos 3))
    ∷ (text "max_http_recv_buffer_size", number (pos (1024 * 1024 * 8)))
    ∷ (text "max_rejects", number (pos 20))
    ∷ (text "max_queued_disk_bytes", number (pos (1024 * 1024 * 1024)))
    ∷ (text "read_cache_line_size", number (pos 512))
    ∷ (text "cache_size_volatile", number (pos 128))
    ∷ (text "checking_mem_usage", number (pos 1024))
    ∷ (text "use_parole_mode", flag false)
    ∷ (text "tracker_completion_timeout", number (pos 30))
    ∷ (text "tracker_receive_timeout", number (pos 30))
    ∷ (text "stop_tracker_timeout", number (pos 30))
    ∷ (text "tracker_backoff", number (pos 250))
    ∷ (text "tracker_maximum_response_length", number (pos (1024 * 1024 * 8)))
    ∷ (text "validate_https_trackers", flag false)
    ∷ (text "alert_mask", number all_alerts)
    ∷ (text "listen_interfaces", words (ip ++ (text ":" ++ listen_port)))
    ∷ []

abbrev client_settings : Settings
client_settings =
    (text "piece_extent_affinity", flag true)
    ∷ (text "seeding_outgoing_connections", flag false)
    ∷ (text "tick_interval", number (pos 500))
    ∷ (text "torrent_connect_boost", number (pos 255))
    ∷ (text "connection_speed", number (pos 0))
    ∷ (text "active_seeds", number (pos 0))
    ∷ (text "active_downloads", number (pos 10))
    ∷ (text "active_checking", number (pos 10))
    ∷ (text "active_limit", number (pos 10))
    ∷ (text "active_tracker_limit", number (pos 10))
    ∷ (text "connections_limit", number (pos 10))
    ∷ (text "file_pool_size", number (pos 10))
    ∷ (text "listen_queue_size", number (pos 10))
    ∷ (text "max_allowed_in_request_queue", number (pos 50000))
    ∷ (text "max_out_request_queue", number (pos 50000))
    ∷ (text "dht_upload_rate_limit", number (pos (block_size * 10)))
    ∷ (text "write_cache_line_size", number (pos 512))
    ∷ (text "send_buffer_watermark_factor", number (pos 50))
    ∷ (text "send_buffer_low_watermark", number (pos (1024 * 10)))
    ∷ (text "send_buffer_watermark", number (pos (1024 * 500)))
    ∷ (text "send_socket_buffer_size", number (pos (1024 * 512)))
    ∷ (text "recv_socket_buffer_size", number (pos (1024 * 1024 * 1024)))
    ∷ (text "no_atime_storage", flag true)
    ∷ (text "enable_set_file_valid_data", flag false)
    ∷ (text "disk_write_mode", number (pos 1))
    ∷ (text "disable_hash_checks", flag false)
    ∷ []

abbrev seeder_settings : Settings
seeder_settings =
    (text "piece_extent_affinity", flag false)
    ∷ (text "seeding_outgoing_connections", flag true)
    ∷ (text "tick_interval", number (pos 150))
    ∷ (text "torrent_connect_boost", number (pos 255))
    ∷ (text "connection_speed", number (pos 200))
    ∷ (text "active_seeds", number (pos 1000))
    ∷ (text "active_downloads", number (pos 0))
    ∷ (text "active_checking", number (pos 1000))
    ∷ (text "active_limit", number (pos 2000))
    ∷ (text "active_tracker_limit", number (pos 2000))
    ∷ (text "connections_limit", number (pos 8000))
    ∷ (text "file_pool_size", number (pos 20))
    ∷ (text "listen_queue_size", number (pos 3000))
    ∷ (text "max_allowed_in_request_queue", number (pos 2000))
    ∷ (text "max_out_request_queue", number (pos 2000))
    ∷ (text "dht_upload_rate_limit", number (pos (block_size * 8)))
    ∷ (text "write_cache_line_size", number (pos 128))
    ∷ (text "send_buffer_watermark_factor", number (pos 150))
    ∷ (text "send_buffer_low_watermark", number (pos (1024 * 10)))
    ∷ (text "send_buffer_watermark", number (pos (1024 * 1024 * 1024)))
    ∷ (text "send_socket_buffer_size", number (pos (1024 * 1024 * 1024)))
    ∷ (text "recv_socket_buffer_size", number (pos (1024 * 512)))
    ∷ []

unfoldable pub set_settings : Bool → ℤ → Text → Text → Settings
set_settings is_client all_alerts ip listen_port =
    common_settings all_alerts ip listen_port
    ++ (if is_client then client_settings else seeder_settings)
