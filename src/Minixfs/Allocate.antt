-- ===== src/Minixfs/Allocate.antt =====
-- The search for a free bit finds the first one, and setting or clearing it changes no other bit.
use mathlib.Core.Option
use waltex.Base.{
  ◌==◌, ==→eq, Bool-cases, get_or, set, get_or-set_self, get_or-set_ne, ℕ, zero, suc, ◌+◌, ◌/◌, ◌%◌,
  ◌≤◌, ◌<◌, ◌≡◌, refl, sym, ap, ◌∙◌, ◌≢◌, ◌⊎◌, inl, inr, Bool, true, false, Option, none, some,
  List, [], arith,
}
use waltex.Minixfs.Bitmap.{
  block_of, is_free, buffered, trova_da, try_bit, trova_libero, change_bit, byte_of, bit_per_blocco,
  spegni, accendi,
}
use waltex.Bits.{set_bit, is_clear, clear_bit, Changes, set_bit-Changes, clear_bit-Changes}
use waltex.Blockdev.{BlockDev}
use waltex.Minixfs.Disk.{
  blocco_leggi, KeepsBlocks, is_block, is_block-lt, is_block-set, is_block-length,
}

module _ {D : Type 0} (dev : BlockDev D) where
  -- A bit of the bitmap on the disk: `some true` is free, `none` cannot be read.
  abbrev pub bit_free : D → ℕ → ℕ → Option Bool
  bit_free d primo bit =
      Option.map (λ buf. is_free buf bit) (blocco_leggi dev d (block_of primo bit))

  -- The first free bit among `rounds` bits, or why there is none.
  abbrev pub FirstFreeBit : D → ℕ → ℕ → ℕ → Option ℕ → Type 0
  FirstFreeBit d primo start rounds (some bit) =
      (start ≤ bit)
      × (bit < start + rounds)
      × (bit_free d primo bit ≡ some true)
      × ((j : ℕ) → start ≤ j → j < bit → bit_free d primo j ≡ some false)
  FirstFreeBit d primo start rounds none =
      ((j : ℕ) → start ≤ j → j < start + rounds → bit_free d primo j ≡ some false)
      ⊎ ((j : ℕ) × (start ≤ j) × (j < start + rounds) × (bit_free d primo j ≡ none))

  -- The buffer holds the current block.
  abbrev IsBuffer : D → Option ℕ → List ℕ → Type 0
  IsBuffer d none buf = Unit {0}
  IsBuffer d (some corrente) buf = blocco_leggi dev d corrente ≡ some buf

  buffered-eq :
      (d : D) (blocco : ℕ) (corrente : Option ℕ) (buf : List ℕ)
      → IsBuffer d corrente buf
      → buffered dev d blocco corrente buf ≡ blocco_leggi dev d blocco
  buffered-eq d blocco none buf h = refl
  buffered-eq d blocco (some corrente) buf h = elim (Bool-cases (blocco == corrente)) [
    | inl same ↦ rw same (sym (ap (blocco_leggi dev d) (==→eq _ _ same) ∙ h))
    | inr differ ↦ rw differ refl
  ]

  FirstFreeBit-later :
      (d : D) (primo start rounds : ℕ) (o : Option ℕ)
      → bit_free d primo start ≡ some false
      → FirstFreeBit d primo (start + 1) rounds o
      → FirstFreeBit d primo start (suc rounds) o
  FirstFreeBit-later d primo start rounds (some bit) taken (ge, lt, hit, first) =
      (omega arith, omega arith, hit, earlier)
    where
      earlier : (j : ℕ) → start ≤ j → j < bit → bit_free d primo j ≡ some false
      earlier j ge' lt' = elim (Bool-cases (start == j)) [
        | inl e ↦ rw (← ==→eq start j e) taken
        | inr e ↦ first j (ground arith) lt'
      ]
  FirstFreeBit-later d primo start rounds none taken (inl full) = inl all
    where
      all : (j : ℕ) → start ≤ j → j < start + suc rounds → bit_free d primo j ≡ some false
      all j ge lt = elim (Bool-cases (start == j)) [
        | inl e ↦ rw (← ==→eq start j e) taken
        | inr e ↦ full j (ground arith) (omega arith)
      ]
  FirstFreeBit-later d primo start rounds none taken (inr (j, ge, lt, lost)) =
      inr (j, omega arith, omega arith, lost)

  trova_da-FirstFreeBit :
      (d : D) (primo rounds bit : ℕ) (corrente : Option ℕ) (buf : List ℕ)
      → IsBuffer d corrente buf
      → FirstFreeBit d primo bit rounds (trova_da dev d primo rounds bit corrente buf)
  unfolding trova_da try_bit
  trova_da-FirstFreeBit d primo zero bit corrente buf h = inl (λ j ge lt. absurd (omega arith))
  trova_da-FirstFreeBit d primo (suc rounds) bit corrente buf h =
      rw (buffered-eq d (block_of primo bit) corrente buf h) (
        go (blocco_leggi dev d (block_of primo bit)) refl (λ buf' e.
          trova_da-FirstFreeBit d primo rounds (bit + 1) (some (block_of primo bit)) buf' e))
    where
      rest : List ℕ → Option ℕ
      rest buf' = trova_da dev d primo rounds (bit + 1) (some (block_of primo bit)) buf'

      go :
          (o : Option (List ℕ))
          → blocco_leggi dev d (block_of primo bit) ≡ o
          → ((buf' : List ℕ)
              → blocco_leggi dev d (block_of primo bit) ≡ some buf'
              → FirstFreeBit d primo (bit + 1) rounds (rest buf'))
          → FirstFreeBit d primo bit (suc rounds) (try_bit dev rest bit o)
      go none e later = inr (bit, omega arith, omega arith, rw e refl)
      go (some buf') e later = elim (Bool-cases (is_free buf' bit)) [
        | inl free ↦
            rw free (omega arith, omega arith, rw e (ap some free), λ j ge lt. absurd (omega arith))
        | inr taken ↦
            rw taken (FirstFreeBit-later d primo bit rounds _ (rw e (ap some taken)) (later buf' e))
      ]

  -- bitmap_trova_libero finds the first free bit from bit 1 to `max_bit`. It answers 0 only if all
  -- of them are taken or the block of one of them cannot be read.
  pub trova_libero-FirstFreeBit :
      (d : D) (primo max_bit : ℕ)
      → FirstFreeBit d primo 1 max_bit (trova_libero dev d primo max_bit)
  unfolding trova_libero
  trova_libero-FirstFreeBit d primo max_bit = trova_da-FirstFreeBit d primo max_bit 1 none [] tt

-- The block in memory with one bit changed.
module _ (change : ℕ → ℕ → ℕ) (free : Bool) (buf : List ℕ) (bit : ℕ) (block : is_block buf ≡ true)
    (c : Changes change free) where
  abbrev old_byte : ℕ
  old_byte = get_or buf (byte_of bit) 0

  abbrev changed : List ℕ
  changed = set buf (byte_of bit) (change old_byte (bit % 8))

  changed_byte : get_or changed (byte_of bit) 0 ≡ change old_byte (bit % 8)
  changed_byte = get_or-set_self buf (byte_of bit) _ 0 (omega (arith, is_block-length buf block))

  at_bit :
      (j : ℕ)
      → j < 8
      → (change old_byte (bit % 8) < 256)
        × (((bit % 8 ≡ j) × (is_clear (change old_byte (bit % 8)) j ≡ free))
            ⊎ ((bit % 8 ≢ j) × (is_clear (change old_byte (bit % 8)) j ≡ is_clear old_byte j)))
  at_bit j lt = c old_byte (bit % 8) j (omega arith) lt (is_block-lt buf (byte_of bit) block)

  changed_block : is_block changed ≡ true
  changed_block = is_block-set buf (byte_of bit) _ block (at_bit 0 (omega arith)).0

  is_free-changed : is_free changed bit ≡ free
  is_free-changed = elim (at_bit (bit % 8) (omega arith)).1 [
    | inl (same, e) ↦ ap (λ x. is_clear x (bit % 8)) changed_byte ∙ e
    | inr (differ, e) ↦ absurd (differ refl)
  ]

  is_free-other :
      (j : ℕ)
      → j ≢ bit
      → bit / bit_per_blocco ≡ j / bit_per_blocco
      → is_free changed j ≡ is_free buf j
  is_free-other j ne same = elim (Bool-cases (byte_of bit == byte_of j)) [
    | inl byte ↦ elim (at_bit (j % 8) (omega arith)).1 [
      | inl (place, e) ↦ absurd (ne (omega (arith, ==→eq _ _ byte)))
      | inr (differ, e) ↦
          let at_j = ==→eq _ _ byte in
          ap (λ i. is_clear (get_or changed i 0) (j % 8)) (sym at_j)
          ∙ ap (λ x. is_clear x (j % 8)) changed_byte
          ∙ e
          ∙ ap (λ i. is_clear (get_or buf i 0) (j % 8)) at_j
    ]
    | inr differ ↦
        ap (λ x. is_clear x (j % 8))
          (get_or-set_ne buf (byte_of bit) (byte_of j) _ 0 (λ e. ground arith))
  ]

module _ {D : Type 0} (dev : BlockDev D) (keeps : KeepsBlocks dev) where
  -- The disk after one bit is changed.
  abbrev pub BitChanged : D → D → ℕ → ℕ → Bool → Type 0
  BitChanged d d' primo bit free =
      (bit_free dev d' primo bit ≡ some free)
      × ((j : ℕ) → j ≢ bit → bit_free dev d' primo j ≡ bit_free dev d primo j)
      × ((b : ℕ) → b ≢ block_of primo bit → blocco_leggi dev d' b ≡ blocco_leggi dev d b)

  change_bit-BitChanged :
      (change : ℕ → ℕ → ℕ) (free : Bool) (d : D) (primo bit : ℕ) (o : Option (List ℕ))
      → Changes change free
      → blocco_leggi dev d (block_of primo bit) ≡ o
      → (change_bit dev change d (block_of primo bit) bit o).0 ≡ true
      → BitChanged d (change_bit dev change d (block_of primo bit) bit o).1 primo bit free
  unfolding change_bit
  change_bit-BitChanged change free d primo bit none c e took = absurd (ground arith)
  change_bit-BitChanged change free d primo bit (some buf) c e took =
      let block = keeps.whole d _ buf e in
      let now =
        keeps.same d (block_of primo bit) _ (changed_block change free buf bit block c) took in
      (
        rw now (ap some (is_free-changed change free buf bit block c)),
        λ j ne. elim (Bool-cases (block_of primo bit == block_of primo j)) [
          | inl same ↦
              let eq = ==→eq _ _ same in
              rw (← eq) (
                rw (now, e)
                  (ap some (is_free-other change free buf bit block c j ne (omega (arith, eq)))))
          | inr differ ↦
              ap (Option.map (λ buf. is_free buf j))
                (keeps.other d _ _ _ took (λ same. ground arith))
        ],
        λ b ne. keeps.other d _ _ _ took (λ same. ne (sym same)),
      )

  -- bitmap_accendi, where it succeeds: the bit is taken, every other bit of the bitmap is as before,
  -- and so is every block but the one that holds the bit.
  pub accendi-BitChanged :
      (d : D) (primo bit : ℕ)
      → (accendi dev d primo bit).0 ≡ true
      → BitChanged d (accendi dev d primo bit).1 primo bit false
  unfolding accendi
  accendi-BitChanged d primo bit took =
      change_bit-BitChanged set_bit false d primo bit _ set_bit-Changes refl took

  -- bitmap_spegni, where it succeeds: the bit is free, and all else is as before.
  pub spegni-BitChanged :
      (d : D) (primo bit : ℕ)
      → (spegni dev d primo bit).0 ≡ true
      → BitChanged d (spegni dev d primo bit).1 primo bit true
  unfolding spegni
  spegni-BitChanged d primo bit took =
      change_bit-BitChanged clear_bit true d primo bit _ clear_bit-Changes refl took
