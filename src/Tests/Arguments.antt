-- ===== src/Tests/Arguments.antt =====
-- A command line.
use simple_torrent_client.Common.{[], ◌∷◌, ◌≡◌, refl, true, arith, Bool}
use simple_torrent_client.ByteTools.{Bytes}
use simple_torrent_client.CommandLine.{downloads, parse_arguments, no_options}
use simple_torrent_client.CommandLine.Arguments.{
  directory, file, written, meant, parse_arguments-downloads,
}

abbrev everything_exists : Bytes → Bool
everything_exists path = true

-- Of two directories the second one counts.
parse_arguments-downloads_example :
    parse_arguments everything_exists
      (written (directory (b'a' ∷ []) ∷ file (b't' ∷ []) ∷ directory (b'b' ∷ []) ∷ []))
      no_options
    ≡ downloads
        (meant (directory (b'a' ∷ []) ∷ file (b't' ∷ []) ∷ directory (b'b' ∷ []) ∷ []) no_options)
parse_arguments-downloads_example =
    parse_arguments-downloads everything_exists
      (directory (b'a' ∷ []) ∷ file (b't' ∷ []) ∷ directory (b'b' ∷ []) ∷ [])
      (tt, ((λ e. omega arith), (tt, tt)))
      (record {
        file_given = refl;
        directory_given = refl;
        file_exists = refl;
        directory_exists = refl;
      })
