-- ===== src/Minixfs/File.antt =====
-- minix_read and minix_write of kernel/minixfs.c, on the file in a slot of the cache.
use waltex.Base.{
  ltb, leb, ◌==◌, if◌then◌else◌, length, take, drop, replicate, ℕ, zero, suc, ◌+◌, ◌-◌, ◌/◌, ◌%◌,
  ◌^◌, min, Bool, true, false, Option, none, some, List, [], ◌∷◌, ◌++◌,
}
use waltex.Blockdev.{BlockDev}
use waltex.Minixfs.Disk.{block_size}
use waltex.Minixfs.Inode.{scrivi, leggi, inode_scrivi}
use waltex.Minixfs.Types.{put_slot, Fs, slot_at}
use waltex.Minixfs.Zone.{zona_di, zona_assegna, zona_alloca}

-- `quanti`: what is left of the block, and at most what is left to do.
abbrev pub quanti : ℕ → ℕ → ℕ
quanti off left = min (block_size - off % block_size) left

module _ {D : Type 0} (dev : BlockDev D) where
  -- The bytes of one round of minix_read, out of one block.
  abbrev pub cut_block : ℕ → ℕ → Option (List ℕ) → Option (List ℕ)
  cut_block dentro quanti none = none
  cut_block dentro quanti (some blocco) = some (take quanti (drop dentro blocco))

  unfoldable pub piece : Fs D → ℕ → ℕ → ℕ → Option (List ℕ)
  piece f i off quanti =
      let z = zona_di dev f i (off / block_size) in
      let read = cut_block (off % block_size) quanti (leggi dev f z) in
      if z == 0 then some (replicate quanti 0) else read

  -- One round: its bytes, and then `go`, the rest of the loop. `false` is for a block that could
  -- not be read.
  unfoldable pub read_round : (ℕ → ℕ → List ℕ × Bool) → ℕ → ℕ → Option (List ℕ) → List ℕ × Bool
  read_round go off left none = ([], false)
  read_round go off left (some bytes) =
      let q = quanti off left in
      let (rest, whole) = go (off + q) (left - q) in (bytes ++ rest, whole)

  -- The loop of minix_read: a round reads at least one byte, so as many rounds as bytes are enough.
  unfoldable pub read_loop : Fs D → ℕ → ℕ → ℕ → ℕ → List ℕ × Bool
  unfolding read_round piece
  read_loop f i zero off left = ([], true)
  read_loop f i (suc rounds) off left =
      let round = read_round (read_loop f i rounds) off left (piece f i off (quanti off left)) in
      if left == 0 then ([], true) else round

  -- `return fatti > 0 ? (int)fatti : -1`
  abbrev pub read_result : List ℕ × Bool → Option (List ℕ)
  read_result (bytes, true) = some bytes
  read_result ([], false) = none
  read_result (b ∷ bytes, false) = some (b ∷ bytes)

  -- minix_read: the bytes that are stored in the buffer, or -1.
  unfoldable pub minix_read : Fs D → ℕ → ℕ → ℕ → Option (List ℕ)
  unfolding read_loop
  minix_read f i off n =
      let size = (slot_at f i).size in
      let n' = if ltb (size - off) n then size - off else n in
      let bytes = read_result (read_loop f i n' off n') in if leb size off then some [] else bytes

  -- The zone of one round of minix_write: the one that is there, or a new one; `none` leaves the
  -- loop.
  unfoldable pub assigned : ℕ → Bool × Fs D → Option ℕ × Fs D
  assigned z (false, f) = (none, f)
  assigned z (true, f) = (some z, f)

  unfoldable pub new_zone : ℕ → ℕ → Option ℕ × Fs D → Option ℕ × Fs D
  unfolding assigned
  new_zone i n (none, f) = (none, f)
  new_zone i n (some z, f) = assigned z (zona_assegna dev f i n z)

  unfoldable pub zone_for : Fs D → ℕ → ℕ → Option ℕ × Fs D
  unfolding new_zone
  zone_for f i n =
      let z = zona_di dev f i n in
      let fresh = new_zone i n (zona_alloca dev f) in if z == 0 then fresh else (some z, f)

  -- `memcpy(blocco + dentro, src + fatti, quanti)`
  abbrev pub patch : List ℕ → ℕ → List ℕ → List ℕ
  patch blocco dentro bytes = take dentro blocco ++ (bytes ++ drop (dentro + length bytes) blocco)

  -- Read the block, put the bytes into it, write it.
  unfoldable pub patch_zone : ℕ → ℕ → List ℕ → Fs D → Option (List ℕ) → Bool × Fs D
  patch_zone z dentro bytes f none = (false, f)
  patch_zone z dentro bytes f (some blocco) = scrivi dev f z (patch blocco dentro bytes)

  unfoldable pub write_zone : ℕ → List ℕ → Option ℕ × Fs D → Bool × Fs D
  unfolding patch_zone
  write_zone dentro bytes (none, f) = (false, f)
  write_zone dentro bytes (some z, f) = patch_zone z dentro bytes f (leggi dev f z)

  -- After a round that wrote `q` bytes, `go` is the rest of the loop; the count is `fatti`.
  unfoldable pub write_round : (Fs D → ℕ × Fs D) → ℕ → Bool × Fs D → ℕ × Fs D
  write_round go q (false, f) = (0, f)
  write_round go q (true, f) = let (count, f') = go f in (q + count, f')

  -- The loop of minix_write: how many bytes passed.
  unfoldable pub write_loop : ℕ → ℕ → ℕ → List ℕ → Fs D → ℕ × Fs D
  unfolding write_round write_zone zone_for
  write_loop i zero off bytes f = (0, f)
  write_loop i (suc rounds) off bytes f =
      let q = quanti off (length bytes) in
      let wrote = write_zone (off % block_size) (take q bytes) (zone_for f i (off / block_size)) in
      let round = write_round (write_loop i rounds (off + q) (drop q bytes)) q wrote in
      if length bytes == 0 then (0, f) else round

  -- The end of minix_write: the size grows, never shrinks.
  unfoldable pub grown : ℕ → Bool × Fs D → Option ℕ × Fs D
  grown count (false, f) = (none, f)
  grown count (true, f) = (some count, f)

  unfoldable pub write_end : ℕ → ℕ → ℕ × Fs D → Option ℕ × Fs D
  unfolding grown
  write_end i off (count, f) =
      let fine = (off + count) % 2 ^ 32 in
      let bigger =
        grown count (inode_scrivi dev (put_slot f i (record (slot_at f i) { size = fine })) i) in
      if count == 0
      then (none, f)
      else if ltb (slot_at f i).size fine
      then bigger
      else (some count, f)

  -- minix_write: how many bytes were taken, or -1.
  unfoldable pub minix_write : Fs D → ℕ → ℕ → List ℕ → Option ℕ × Fs D
  unfolding write_end write_loop
  minix_write f i off bytes =
      let result = write_end i off (write_loop i (length bytes) off bytes f) in
      if length bytes == 0 then (some 0, f) else result
