-- ===== src/Minixfs/Record.antt =====
-- An inode in its 32 bytes: what store_inode puts there minode_of reads, and the other bytes stay.
use waltex.Base.{
  length, get_or, set, length-set, get_or-set_self, get_or-set_ne, ℕ, zero, suc, ◌+◌, ◌*◌, ◌%◌, ◌^◌,
  ◌≤◌, ◌<◌, ◌≡◌, refl, sym, ap, ap₂, ◌∙◌, ◌≢◌, ◌⊎◌, inl, inr, true, List, ◌∷◌, arith,
}
use waltex.Minixfs.Bytes.{
  length-put16, get_or-put16_other, all16, get_or-put16s_other, put16, get16s, get16, put32,
  is_block-put16, get32, get16s-put16s, get32-put32, is_block-put16s, get16-put16,
}
use waltex.Minixfs.Disk.{is_block-set, is_block}
use waltex.Minixfs.Inode.{store_inode, minode_of}
use waltex.Minixfs.Types.{inode_size, tipo_da_mode, Minode}

-- A slot that fits the 32 bytes of the disk.
pub record IsMinode (m : Minode) : Type 0 where
  pub kind : m.kind ≡ tipo_da_mode m.mode
  pub mode : m.mode < 65536
  pub size : m.size < 2 ^ 32
  pub nlinks : m.nlinks < 256
  pub zones : length m.zone ≡ 9
  pub zones_fit : all16 m.zone ≡ true

-- An inode by its fields on the disk.
abbrev from_fields : ℕ → ℕ → ℕ → List ℕ → ℕ → Minode
from_fields ino mode size zone nlinks = record {
  ino = ino;
  kind = tipo_da_mode mode;
  size = size;
  zone = zone;
  mode = mode;
  nlinks = nlinks;
}

from_fields-cong :
    (ino : ℕ) {mode mode' size size' : ℕ} {zone zone' : List ℕ} {nlinks nlinks' : ℕ}
    → mode ≡ mode'
    → size ≡ size'
    → zone ≡ zone'
    → nlinks ≡ nlinks'
    → from_fields ino mode size zone nlinks ≡ from_fields ino mode' size' zone' nlinks'
from_fields-cong ino a b c d = rw (a, b, c, d) refl

-- Two blocks that agree on a range of bytes.
abbrev pub Agree : List ℕ → List ℕ → ℕ → ℕ → Type 0
Agree xs ys off n = (j : ℕ) → off ≤ j → j < off + n → get_or xs j 0 ≡ get_or ys j 0

get16-Agree :
    (xs ys : List ℕ) (off n i : ℕ)
    → Agree xs ys off n
    → off ≤ i
    → i + 2 ≤ off + n
    → get16 xs i ≡ get16 ys i
get16-Agree xs ys off n i same ge le =
    ap₂ (λ a b. a + 256 * b) (same i ge (omega arith)) (same (i + 1) (omega arith) (omega arith))

get16s-Agree :
    (xs ys : List ℕ) (off n i k : ℕ)
    → Agree xs ys off n
    → off ≤ i
    → i + 2 * k ≤ off + n
    → get16s xs i k ≡ get16s ys i k
unfolding get16s
get16s-Agree xs ys off n i zero same ge le = refl
get16s-Agree xs ys off n i (suc k) same ge le =
    ap₂ (λ a l. a ∷ l) (get16-Agree xs ys off n i same ge (omega arith))
      (get16s-Agree xs ys off n (i + 2) k same (omega arith) (omega arith))

-- An inode depends on its own 32 bytes only.
pub minode_of-Agree :
    (ino : ℕ) (xs ys : List ℕ) (off : ℕ)
    → Agree xs ys off inode_size
    → minode_of ino xs off ≡ minode_of ino ys off
minode_of-Agree ino xs ys off same =
    from_fields-cong ino (get16-Agree xs ys off 32 off same (omega arith) (omega arith))
      (ap₂ (λ a b. a + 65536 * b)
        (get16-Agree xs ys off 32 (off + 4) same (omega arith) (omega arith))
        (get16-Agree xs ys off 32 (off + 4 + 2) same (omega arith) (omega arith)))
      (get16s-Agree xs ys off 32 (off + 14) 9 same (omega arith) (omega arith))
      (same (off + 13) (omega arith) (omega arith))

module _ (m : Minode) (buf : List ℕ) (off : ℕ) where
  abbrev with_mode : List ℕ
  with_mode = put16 buf off m.mode

  abbrev with_size : List ℕ
  with_size = put32 with_mode (off + 4) m.size

  abbrev with_links : List ℕ
  with_links = set with_size (off + 13) (m.nlinks % 256)

  length-with_links : length with_links ≡ length buf
  length-with_links =
      length-set with_size (off + 13) _
      ∙ length-put16 (put16 with_mode (off + 4) m.size) (off + 4 + 2) _
      ∙ length-put16 with_mode (off + 4) _
      ∙ length-put16 buf off _

  -- Where each step leaves the bytes alone.
  size-other : (j : ℕ) → (j < off + 4) ⊎ (off + 8 ≤ j) → get_or with_size j 0 ≡ get_or with_mode j 0
  size-other j (inl lt) =
      get_or-put16_other (put16 with_mode (off + 4) m.size) (off + 4 + 2) _ j
        (λ e. omega (arith, e)) (λ e. omega (arith, e))
      ∙ get_or-put16_other with_mode (off + 4) _ j (λ e. omega (arith, e)) (λ e. omega (arith, e))
  size-other j (inr ge) =
      get_or-put16_other (put16 with_mode (off + 4) m.size) (off + 4 + 2) _ j
        (λ e. omega (arith, e)) (λ e. omega (arith, e))
      ∙ get_or-put16_other with_mode (off + 4) _ j (λ e. omega (arith, e)) (λ e. omega (arith, e))

  links-other : (j : ℕ) → j ≢ off + 13 → get_or with_links j 0 ≡ get_or with_size j 0
  links-other j ne = get_or-set_ne with_size (off + 13) j _ 0 (λ e. ne (sym e))

  zones-other :
      (j : ℕ)
      → (j < off + 14) ⊎ (off + 14 + 2 * length m.zone ≤ j)
      → get_or (store_inode m buf off) j 0 ≡ get_or with_links j 0
  zones-other j out = get_or-put16s_other with_links (off + 14) m.zone j out

  pub store_inode-other :
      (j : ℕ)
      → length m.zone ≡ 9
      → (j < off) ⊎ (off + inode_size ≤ j)
      → get_or (store_inode m buf off) j 0 ≡ get_or buf j 0
  store_inode-other j nine (inl lt) =
      zones-other j (inl (omega arith))
      ∙ links-other j (λ e. omega (arith, e))
      ∙ size-other j (inl (omega arith))
      ∙ get_or-put16_other buf off _ j (λ e. omega (arith, e)) (λ e. omega (arith, e))
  store_inode-other j nine (inr ge) =
      zones-other j (inr (omega arith))
      ∙ links-other j (λ e. omega (arith, e))
      ∙ size-other j (inr (omega arith))
      ∙ get_or-put16_other buf off _ j (λ e. omega (arith, e)) (λ e. omega (arith, e))

  low_byte : (j : ℕ) → j < off + 4 → get_or (store_inode m buf off) j 0 ≡ get_or with_mode j 0
  low_byte j lt =
      zones-other j (inl (omega arith))
      ∙ links-other j (λ e. omega (arith, e))
      ∙ size-other j (inl lt)

  middle_byte : (j : ℕ) → j < off + 13 → get_or (store_inode m buf off) j 0 ≡ get_or with_size j 0
  middle_byte j lt = zones-other j (inl (omega arith)) ∙ links-other j (λ e. omega (arith, e))

  module _ (w : IsMinode m) (fits : off + inode_size ≤ length buf) where
    stored_mode : get16 (store_inode m buf off) off ≡ m.mode
    stored_mode =
        ap₂ (λ a b. a + 256 * b) (low_byte off (omega arith)) (low_byte (off + 1) (omega arith))
        ∙ get16-put16 buf off m.mode (omega arith)
        ∙ omega (arith, w.mode)

    stored_size : get32 (store_inode m buf off) (off + 4) ≡ m.size
    stored_size =
        ap₂ (λ a b. a + 65536 * b)
          (ap₂ (λ a b. a + 256 * b) (middle_byte (off + 4) (omega arith))
            (middle_byte (off + 4 + 1) (omega arith)))
          (ap₂ (λ a b. a + 256 * b) (middle_byte (off + 4 + 2) (omega arith))
            (middle_byte (off + 4 + 2 + 1) (omega arith)))
        ∙ get32-put32 with_mode (off + 4) m.size (omega (arith, length-put16 buf off m.mode)) w.size

    stored_zones : get16s (store_inode m buf off) (off + 14) 9 ≡ m.zone
    stored_zones =
        ap (get16s (store_inode m buf off) (off + 14)) (sym w.zones)
        ∙ get16s-put16s with_links (off + 14) m.zone (omega (arith, length-with_links, w.zones))
            w.zones_fit

    stored_links : get_or (store_inode m buf off) (off + 13) 0 ≡ m.nlinks
    stored_links =
        zones-other (off + 13) (inl (omega arith))
        ∙ get_or-set_self with_size (off + 13) _ 0
            (omega (arith, length-with_links, length-set with_size (off + 13) (m.nlinks % 256)))
        ∙ omega (arith, w.nlinks)

    -- The inode that is stored is the inode that is read.
    pub minode_of-store_inode : minode_of m.ino (store_inode m buf off) off ≡ m
    minode_of-store_inode =
        from_fields-cong m.ino stored_mode stored_size stored_zones stored_links
        ∙ ap (λ k. record m { kind = k }) (sym w.kind)

pub is_block-store_inode :
    (m : Minode) (buf : List ℕ) (off : ℕ)
    → is_block buf ≡ true
    → is_block (store_inode m buf off) ≡ true
is_block-store_inode m buf off h = is_block-put16s _ (off + 14) m.zone (
    is_block-set _ (off + 13) (m.nlinks % 256)
      (is_block-put16 _ (off + 4 + 2) _
        (is_block-put16 _ (off + 4) _ (is_block-put16 buf off m.mode h)))
      (omega arith))
