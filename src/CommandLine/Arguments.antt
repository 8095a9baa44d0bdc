-- ===== src/CommandLine/Arguments.antt =====
-- Arguments that are written for a command line are read back, in any order and number.
use simple_torrent_client.Common.{
  Bool, true, false, not, ◌||◌, List, [], ◌∷◌, ◌≡◌, ◌≢◌, refl, ap, ◌∙◌, arith, ◌==◌, bytes_eq,
  if_true, if_false, All,
}
use simple_torrent_client.ByteTools.{Bytes, byte_at}
use simple_torrent_client.Bencode.{is_empty}
use simple_torrent_client.CommandLine.{
  Options, directory_option, help_option, long_help_option, downloads, check_options,
  parse_arguments, no_options,
}

-- A directory behind its option, or the torrent file.
pub data Argument : Type 0 where
  directory : Bytes → Argument
  file : Bytes → Argument

abbrev pub written : List Argument → List Bytes
written [] = []
written (directory d ∷ rest) = directory_option ∷ d ∷ written rest
written (file f ∷ rest) = f ∷ written rest

-- What the arguments ask for: the last of each kind counts.
abbrev pub meant : List Argument → Options → Options
meant [] o = o
meant (directory d ∷ rest) o = meant rest (record o { output_directory = d })
meant (file f ∷ rest) o = meant rest (record o { torrent_file = f })

-- The name of a file does not begin with a dash.
abbrev pub IsArgument : Argument → Type 0
IsArgument (directory d) = Unit {0}
IsArgument (file f) = byte_at f 0 ≢ b'-'

dashed : (f key : Bytes) → byte_at f 0 ≢ b'-' → bytes_eq f (b'-' ∷ key) ≡ false
unfolding bytes_eq
dashed [] key h = refl
dashed (c ∷ f) key h = ground arith

no_option :
    (f : Bytes)
    → byte_at f 0 ≢ b'-'
    → (bytes_eq f help_option || bytes_eq f long_help_option) ≡ false
no_option f h =
    ground (arith, dashed f (b'h' ∷ []) h, dashed f (b'-' ∷ b'h' ∷ b'e' ∷ b'l' ∷ b'p' ∷ []) h)

-- A file's name is no option.
read_file :
    (exists : Bytes → Bool) (f : Bytes) (rest : List Bytes) (o : Options)
    → byte_at f 0 ≢ b'-'
    → parse_arguments exists (f ∷ rest) o
      ≡ parse_arguments exists rest (record o { torrent_file = f })
unfolding parse_arguments
read_file exists f [] o h =
    let name : not (byte_at f 0 == b'-') ≡ true = ground arith in
    if_false _ _ _ (no_option f h) ∙ if_true _ _ _ name
read_file exists f (value ∷ rest) o h =
    let name : not (byte_at f 0 == b'-') ≡ true = ground arith in
    if_false _ _ _ (dashed f (b'd' ∷ []) h) ∙ (if_false _ _ _ (no_option f h) ∙ if_true _ _ _ name)

parse_arguments-written :
    (exists : Bytes → Bool) (arguments : List Argument) (o : Options)
    → All IsArgument arguments
    → parse_arguments exists (written arguments) o ≡ check_options exists (meant arguments o)
unfolding parse_arguments bytes_eq
parse_arguments-written exists [] o h = refl
parse_arguments-written exists (directory d ∷ rest) o h =
    parse_arguments-written exists rest (record o { output_directory = d }) h.1
parse_arguments-written exists (file f ∷ rest) o h =
    read_file exists f (written rest) o h.0
    ∙ parse_arguments-written exists rest (record o { torrent_file = f }) h.1

-- What a download is started with.
pub record IsUsable (exists : Bytes → Bool) (o : Options) : Type 0 where
  pub file_given : is_empty o.torrent_file ≡ false
  pub directory_given : is_empty o.output_directory ≡ false
  pub file_exists : exists o.torrent_file ≡ true
  pub directory_exists : exists o.output_directory ≡ true

check_options-IsUsable :
    (exists : Bytes → Bool) (o : Options) → IsUsable exists o → check_options exists o ≡ downloads o
unfolding check_options
check_options-IsUsable exists o u =
    let found : not (exists o.torrent_file) ≡ false = ap not u.file_exists in
    let found' : not (exists o.output_directory) ≡ false = ap not u.directory_exists in
    if_false _ _ _ u.file_given
    ∙ (if_false _ _ _ u.directory_given ∙ (if_false _ _ _ found ∙ if_false _ _ _ found'))

-- A command line of directories behind -d and names of torrent files that do not begin with a dash,
-- in any number and order: main goes on to the download with the last of each kind, if both are
-- given, not empty and exist.
pub parse_arguments-downloads :
    (exists : Bytes → Bool) (arguments : List Argument)
    → All IsArgument arguments
    → IsUsable exists (meant arguments no_options)
    → parse_arguments exists (written arguments) no_options ≡ downloads (meant arguments no_options)
parse_arguments-downloads exists arguments h u =
    parse_arguments-written exists arguments no_options h
    ∙ check_options-IsUsable exists (meant arguments no_options) u
