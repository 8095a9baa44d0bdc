-- ===== src/CommandLine.antt =====
-- src/main.cpp: the arguments of the command line, and the exit code. Whether a path exists, and whether
-- DownloadTorrent throws, are arguments.
pub mod Arguments
use simple_torrent_client.Common.{
  ℕ, Bool, true, false, not, ◌||◌, List, [], ◌∷◌, ◌==◌, bytes_eq, if◌then◌else◌,
}
use simple_torrent_client.ByteTools.{Bytes, byte_at}
use simple_torrent_client.Bencode.{is_empty}

pub record Options : Type 0 where
  pub output_directory : Bytes
  pub torrent_file : Bytes

abbrev pub directory_option : Bytes
directory_option = b'-' ∷ b'd' ∷ []

abbrev pub help_option : Bytes
help_option = b'-' ∷ b'h' ∷ []

abbrev pub long_help_option : Bytes
long_help_option = b'-' ∷ b'-' ∷ b'h' ∷ b'e' ∷ b'l' ∷ b'p' ∷ []

-- How `main` goes on behind its loop, or where it returns.
pub data Command : Type 0 where
  shows_help : Command
  unknown_option : Bytes → Command
  no_torrent_file : Command
  no_output_directory : Command
  torrent_file_not_found : Command
  output_directory_not_found : Command
  downloads : Options → Command

unfoldable pub check_options : (Bytes → Bool) → Options → Command
check_options exists o =
    if is_empty o.torrent_file
    then no_torrent_file
    else if is_empty o.output_directory
    then no_output_directory
    else if not (exists o.torrent_file)
    then torrent_file_not_found
    else if not (exists o.output_directory)
    then output_directory_not_found
    else downloads o

-- The loop over the arguments that are left. (An empty argument has 0 at its end.)
unfoldable pub parse_arguments : (Bytes → Bool) → List Bytes → Options → Command
unfolding check_options
parse_arguments exists [] o = check_options exists o
parse_arguments exists (arg ∷ []) o =
    if bytes_eq arg help_option || bytes_eq arg long_help_option
    then shows_help
    else if not (byte_at arg 0 == b'-')
    then check_options exists (record o { torrent_file = arg })
    else unknown_option arg
parse_arguments exists (arg ∷ value ∷ rest) o =
    if bytes_eq arg directory_option
    then parse_arguments exists rest (record o { output_directory = value })
    else if bytes_eq arg help_option || bytes_eq arg long_help_option
    then shows_help
    else if not (byte_at arg 0 == b'-')
    then parse_arguments exists (value ∷ rest) (record o { torrent_file = arg })
    else unknown_option arg

abbrev pub no_options : Options
no_options = record { output_directory = []; torrent_file = [] }

-- What `main` returns; `returns` says of a download whether it does not throw.
unfoldable pub exit_code : (Options → Bool) → Command → ℕ
exit_code returns shows_help = 0
exit_code returns (downloads o) = if returns o then 0 else 1
exit_code returns _ = 1
