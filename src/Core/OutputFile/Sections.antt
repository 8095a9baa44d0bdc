-- ===== src/Core/OutputFile/Sections.antt =====
-- What a section of a file holds after a write.
use simple_torrent_client.Common.{
  ℕ, zero, suc, ◌+◌, ◌≤◌, ◌<◌, max, ◌≡◌, refl, ap, ◌∙◌, arith, [], ◌∷◌, length, drop, take,
  take_all, drop_all, replicate,
}
use simple_torrent_client.ByteTools.{Bytes}
use simple_torrent_client.Core.OutputFile.{overwrite, write_at}

-- The `n` bytes at `offset`; fewer at the end of the file.
abbrev pub section : ℕ → ℕ → Bytes → Bytes
section offset n contents = take n (drop offset contents)

take-overwrite : (bytes contents : Bytes) → take (length bytes) (overwrite bytes contents) ≡ bytes
unfolding overwrite
take-overwrite [] contents = refl
take-overwrite (b ∷ bytes) [] = ap (◌∷◌ b) (take_all (length bytes) bytes (omega arith))
take-overwrite (b ∷ bytes) (c ∷ contents) = ap (◌∷◌ b) (take-overwrite bytes contents)

-- The bytes that were written are read back.
pub section-write_at_self :
    (offset : ℕ) (bytes contents : Bytes)
    → section offset (length bytes) (write_at offset bytes contents) ≡ bytes
unfolding write_at
section-write_at_self zero bytes contents = take-overwrite bytes contents
section-write_at_self (suc offset) [] contents = refl
section-write_at_self (suc offset) (b ∷ bytes) [] = section-write_at_self offset (b ∷ bytes) []
section-write_at_self (suc offset) (b ∷ bytes) (c ∷ contents) =
    section-write_at_self offset (b ∷ bytes) contents

-- A section in front of the write is not touched.
pub section-write_at_before :
    (o n offset : ℕ) (bytes contents : Bytes)
    → o + n ≤ offset
    → o + n ≤ length contents
    → section o n (write_at offset bytes contents) ≡ section o n contents
unfolding write_at
section-write_at_before zero zero offset bytes contents h k = refl
section-write_at_before zero (suc n) zero bytes contents h k = absurd (omega arith)
section-write_at_before zero (suc n) (suc offset) [] contents h k = refl
section-write_at_before zero (suc n) (suc offset) (b ∷ bytes) [] h k = absurd (omega arith)
section-write_at_before zero (suc n) (suc offset) (b ∷ bytes) (c ∷ contents) h k =
    ap (◌∷◌ c)
      (section-write_at_before zero n offset (b ∷ bytes) contents (omega arith) (omega arith))
section-write_at_before (suc o) n zero bytes contents h k = absurd (omega arith)
section-write_at_before (suc o) n (suc offset) [] contents h k = refl
section-write_at_before (suc o) n (suc offset) (b ∷ bytes) [] h k = absurd (omega arith)
section-write_at_before (suc o) n (suc offset) (b ∷ bytes) (c ∷ contents) h k =
    section-write_at_before o n offset (b ∷ bytes) contents (omega arith) (omega arith)

drop-overwrite :
    (o : ℕ) (bytes contents : Bytes)
    → length bytes ≤ o
    → drop o (overwrite bytes contents) ≡ drop o contents
unfolding overwrite
drop-overwrite o [] contents h = refl
drop-overwrite zero (b ∷ bytes) contents h = absurd (omega arith)
drop-overwrite (suc o) (b ∷ bytes) [] h = drop_all o bytes (omega arith)
drop-overwrite (suc o) (b ∷ bytes) (c ∷ contents) h = drop-overwrite o bytes contents (omega arith)

-- Nor is anything behind it.
pub drop-write_at :
    (o offset : ℕ) (bytes contents : Bytes)
    → offset + length bytes ≤ o
    → drop o (write_at offset bytes contents) ≡ drop o contents
unfolding write_at
drop-write_at o zero bytes contents h = drop-overwrite o bytes contents (omega arith)
drop-write_at zero (suc offset) bytes contents h = absurd (omega arith)
drop-write_at (suc o) (suc offset) [] contents h = refl
drop-write_at (suc o) (suc offset) (b ∷ bytes) [] h =
    drop-write_at o offset (b ∷ bytes) [] (omega arith) ∙ drop_all o [] (omega arith)
drop-write_at (suc o) (suc offset) (b ∷ bytes) (c ∷ contents) h =
    drop-write_at o offset (b ∷ bytes) contents (omega arith)

pub section-write_at_after :
    (o n offset : ℕ) (bytes contents : Bytes)
    → offset + length bytes ≤ o
    → section o n (write_at offset bytes contents) ≡ section o n contents
section-write_at_after o n offset bytes contents h =
    ap (take n) (drop-write_at o offset bytes contents h)

length-overwrite :
    (bytes contents : Bytes)
    → length (overwrite bytes contents) ≡ max (length bytes) (length contents)
unfolding overwrite
length-overwrite [] contents = omega arith
length-overwrite (b ∷ bytes) [] = omega arith
length-overwrite (b ∷ bytes) (c ∷ contents) = omega (arith, length-overwrite bytes contents)

-- The length of a file after a write of at least one byte.
pub length-write_at :
    (offset : ℕ) (bytes contents : Bytes)
    → 0 < length bytes
    → length (write_at offset bytes contents) ≡ max (offset + length bytes) (length contents)
unfolding write_at
length-write_at zero bytes contents h = omega (arith, length-overwrite bytes contents)
length-write_at (suc offset) [] contents h = absurd (omega arith)
length-write_at (suc offset) (b ∷ bytes) [] h =
    omega (arith, length-write_at offset (b ∷ bytes) [] h)
length-write_at (suc offset) (b ∷ bytes) (c ∷ contents) h =
    omega (arith, length-write_at offset (b ∷ bytes) contents h)

-- A file never gets shorter.
pub le-length-write_at :
    (offset : ℕ) (bytes contents : Bytes)
    → length contents ≤ length (write_at offset bytes contents)
unfolding write_at
le-length-write_at zero bytes contents = omega (arith, length-overwrite bytes contents)
le-length-write_at (suc offset) [] contents = omega arith
le-length-write_at (suc offset) (b ∷ bytes) contents =
    omega (arith, length-write_at (suc offset) (b ∷ bytes) contents)

-- Zeros written behind zeros are zeros.
pub write_at-replicate :
    (o n k : ℕ) → o + n ≡ k → write_at o (replicate n 0) (replicate o 0) ≡ replicate k 0
unfolding write_at
write_at-replicate zero zero zero e = refl
write_at-replicate zero zero (suc k) e = absurd (omega arith)
write_at-replicate zero (suc n) zero e = absurd (omega arith)
write_at-replicate zero (suc n) (suc k) e = ap (λ (j : ℕ). 0 ∷ replicate j 0) (omega arith)
write_at-replicate (suc o) zero zero e = absurd (omega arith)
write_at-replicate (suc o) zero (suc k) e = ap (λ (j : ℕ). 0 ∷ replicate j 0) (omega arith)
write_at-replicate (suc o) (suc n) zero e = absurd (omega arith)
write_at-replicate (suc o) (suc n) (suc k) e =
    ap (◌∷◌ 0) (write_at-replicate o (suc n) k (omega arith))
