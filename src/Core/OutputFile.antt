-- ===== src/Core/OutputFile.antt =====
-- The `std::ofstream file` of include/core/PieceStorage.hpp, with the calls that PieceStorage.cpp
-- makes of it. A write to an open file succeeds; a write to a closed one is lost without a word, as
-- the stream throws no exceptions.
pub mod Sections
use simple_torrent_client.Common.{
  ℕ, zero, suc, ◌+◌, Bool, true, false, List, [], ◌∷◌, if◌then◌else◌, length, drop, take,
}
use simple_torrent_client.ByteTools.{Bytes}

pub record OutputFile : Type 0 where
  pub is_open : Bool
  pub contents : Bytes

-- The bytes of a file after `bytes` are written at its start.
pub overwrite : Bytes → Bytes → Bytes
overwrite [] contents = contents
overwrite (b ∷ bytes) [] = b ∷ bytes
overwrite (b ∷ bytes) (c ∷ contents) = b ∷ overwrite bytes contents

-- And at an offset. A gap behind the end is filled with zeros.
pub write_at : ℕ → Bytes → Bytes → Bytes
unfolding overwrite
write_at zero bytes contents = overwrite bytes contents
write_at (suc offset) [] contents = contents
write_at (suc offset) (b ∷ bytes) [] = 0 ∷ write_at offset (b ∷ bytes) []
write_at (suc offset) (b ∷ bytes) (c ∷ contents) = c ∷ write_at offset (b ∷ bytes) contents

-- `file.seekp(offset); file.write(bytes.data(), bytes.size()); file.flush();`
unfoldable pub seek_write : OutputFile → ℕ → Bytes → OutputFile
unfolding write_at
seek_write f offset bytes =
    if f.is_open then record f { contents = write_at offset bytes f.contents } else f

-- `file.flush(); file.close();`
unfoldable pub close : OutputFile → OutputFile
close f = record f { is_open = false }
