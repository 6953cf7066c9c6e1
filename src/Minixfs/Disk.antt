-- ===== src/Minixfs/Disk.antt =====
-- blocco_leggi and blocco_scrivi of kernel/minixfs.c, over the operations of a struct blockdev.
use waltex.Base.{
  ltb, ◌==◌, length, get_or, set, length-set, ℕ, zero, suc, ◌*◌, ◌<◌, ◌≡◌, refl, ◌≢◌, Bool, true,
  false, ◌&&◌, Option, none, some, List, [], ◌∷◌, arith,
}
use waltex.Blockdev.{BlockDev}

-- BLOCK_SIZE and SETTORI_PER_BLOCCO
abbrev pub block_size : ℕ
block_size = 1024

abbrev pub settori_per_blocco : ℕ
settori_per_blocco = 2

module _ {D : Type 0} (dev : BlockDev D) where
  -- blocco_leggi: the block, or -1.
  unfoldable pub blocco_leggi : D → ℕ → Option (List ℕ)
  blocco_leggi d blocco = elim dev.read [
    | none ↦ none
    | some op ↦ op d (blocco * settori_per_blocco) settori_per_blocco
  ]

  -- What blocco_scrivi makes of the count of sectors.
  unfoldable pub all_written : ℕ × D → Bool × D
  all_written (count, d) = (count == settori_per_blocco, d)

  -- blocco_scrivi: `true` for 0, `false` for -1.
  unfoldable pub blocco_scrivi : D → ℕ → List ℕ → Bool × D
  unfolding all_written
  blocco_scrivi d blocco bytes = elim dev.write [
    | none ↦ (false, d)
    | some op ↦ all_written (op d (blocco * settori_per_blocco) settori_per_blocco bytes)
  ]

-- A block: BLOCK_SIZE bytes.
unfoldable pub all_bytes : List ℕ → Bool
all_bytes [] = true
all_bytes (x ∷ xs) = let rest = all_bytes xs in ltb x 256 && rest

abbrev pub is_block : List ℕ → Bool
is_block bytes = length bytes == block_size && all_bytes bytes

-- What a device promises: it reads whole blocks, it gives back the block that it was given, and a
-- write leaves the other blocks alone.
pub record KeepsBlocks {D : Type 0} (dev : BlockDev D) : Type 0 where
  pub whole :
      (d : D) (b : ℕ) (bytes : List ℕ) → blocco_leggi dev d b ≡ some bytes → is_block bytes ≡ true
  pub same :
      (d : D) (b : ℕ) (bytes : List ℕ)
      → is_block bytes ≡ true
      → (blocco_scrivi dev d b bytes).0 ≡ true
      → blocco_leggi dev (blocco_scrivi dev d b bytes).1 b ≡ some bytes
  pub other :
      (d : D) (b c : ℕ) (bytes : List ℕ)
      → (blocco_scrivi dev d b bytes).0 ≡ true
      → b ≢ c
      → blocco_leggi dev (blocco_scrivi dev d b bytes).1 c ≡ blocco_leggi dev d c

pub all_bytes-lt : (xs : List ℕ) (i : ℕ) → all_bytes xs ≡ true → get_or xs i 0 < 256
unfolding all_bytes
all_bytes-lt [] i h = omega arith
all_bytes-lt (x ∷ xs) zero h = ground arith
all_bytes-lt (x ∷ xs) (suc i) h = all_bytes-lt xs i (ground arith)

pub all_bytes-set :
    (xs : List ℕ) (i v : ℕ) → all_bytes xs ≡ true → v < 256 → all_bytes (set xs i v) ≡ true
unfolding all_bytes
all_bytes-set [] i v h lt = refl
all_bytes-set (x ∷ xs) zero v h lt = ground arith
all_bytes-set (x ∷ xs) (suc i) v h lt = ground (arith, all_bytes-set xs i v (ground arith) lt)

pub is_block-set :
    (xs : List ℕ) (i v : ℕ) → is_block xs ≡ true → v < 256 → is_block (set xs i v) ≡ true
is_block-set xs i v h lt = ground (arith, length-set xs i v, all_bytes-set xs i v (ground arith) lt)

pub is_block-length : (xs : List ℕ) → is_block xs ≡ true → length xs ≡ block_size
is_block-length xs h = ground arith

pub is_block-lt : (xs : List ℕ) (i : ℕ) → is_block xs ≡ true → get_or xs i 0 < 256
is_block-lt xs i h = all_bytes-lt xs i (ground arith)
