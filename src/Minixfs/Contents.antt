-- ===== src/Minixfs/Contents.antt =====
-- minix_read against the contents of a file: the bytes that its zones hold, a hole as zeros.
use waltex.Base.{
  ltb, leb, ◌==◌, if◌then◌else◌, ==→eq, Bool-cases, eq_false, length, get_or, take, drop, replicate,
  length-drop, take-nil, take-length-append, drop-length-append, drop-cons, take-all, drop-all, ℕ,
  zero, suc, ◌+◌, ◌-◌, ◌*◌, ◌/◌, ◌%◌, ◌≤◌, ◌<◌, ◌≡◌, refl, sym, ap, ap₂, ◌∙◌, ◌≢◌, ◌⊎◌, inl, inr,
  true, false, Option, none, some, List, [], ◌∷◌, ◌++◌, arith,
}
use waltex.Blockdev.{BlockDev}
use waltex.Minixfs.Disk.{block_size}
use waltex.Minixfs.File.{read_round, piece, quanti, read_loop, minix_read}
use waltex.Minixfs.Inode.{leggi}
use waltex.Minixfs.Types.{Fs, slot_at}
use waltex.Minixfs.Zone.{zona_di}

module _ {D : Type 0} (dev : BlockDev D) (f : Fs D) (i : ℕ) where
  abbrev pub block_or_empty : Option (List ℕ) → List ℕ
  block_or_empty none = []
  block_or_empty (some buf) = buf

  -- The zone that holds byte `k`.
  abbrev pub zone_of_byte : ℕ → ℕ
  zone_of_byte k = zona_di dev f i (k / block_size)

  -- Byte `k` of the file.
  abbrev pub file_byte : ℕ → ℕ
  file_byte k =
      if zone_of_byte k == 0
      then 0
      else get_or (block_or_empty (leggi dev f (zone_of_byte k))) (k % block_size) 0

  -- The `n` bytes from `off` on.
  unfoldable pub bytes_from : ℕ → ℕ → List ℕ
  bytes_from off zero = []
  bytes_from off (suc n) = file_byte off ∷ bytes_from (off + 1) n

  -- The contents: as many bytes as the inode says.
  abbrev pub contents : List ℕ
  contents = bytes_from 0 (slot_at f i).size

  -- Every zone of the file can be read, and gives a whole block.
  abbrev pub Readable : Type 0
  Readable =
      (k : ℕ)
      → k < (slot_at f i).size
      → (zone_of_byte k ≡ 0)
        ⊎ ((zone_of_byte k ≢ 0)
            × ((buf : List ℕ) × (leggi dev f (zone_of_byte k) ≡ some buf)
                × (length buf ≡ block_size)))

  length-bytes_from : (off n : ℕ) → length (bytes_from off n) ≡ n
  unfolding bytes_from
  length-bytes_from off zero = refl
  length-bytes_from off (suc n) = ap suc (length-bytes_from (off + 1) n)

  bytes_from-append :
      (off n m : ℕ) → bytes_from off (n + m) ≡ bytes_from off n ++ bytes_from (off + n) m
  unfolding bytes_from
  bytes_from-append off zero m = ap₂ bytes_from (omega arith) (omega arith)
  bytes_from-append off (suc n) m =
      let count : suc n + m ≡ suc (n + m) = omega arith in
      let place : off + 1 + n ≡ off + suc n = omega arith in
      ap (bytes_from off) count
      ∙ ap (λ l. file_byte off ∷ l)
          (bytes_from-append (off + 1) n m
            ∙ ap (λ k. bytes_from (off + 1) n ++ bytes_from k m) place)

  -- A byte by its block and its place in the block.
  byte_at : ℕ → ℕ → ℕ
  byte_at b d =
      if zona_di dev f i b == 0
      then 0
      else get_or (block_or_empty (leggi dev f (zona_di dev f i b))) d 0

  file_byte-byte_at : (b d : ℕ) → d < block_size → file_byte (b * block_size + d) ≡ byte_at b d
  unfolding byte_at
  file_byte-byte_at b d lt =
      let block : (b * block_size + d) / block_size ≡ b = omega arith in
      let place : (b * block_size + d) % block_size ≡ d = omega arith in ap₂ byte_at block place

  -- What one round gives is the bytes from its offset on.
  hole-bytes :
      (b d q : ℕ)
      → zona_di dev f i b ≡ 0
      → d + q ≤ block_size
      → replicate q 0 ≡ bytes_from (b * block_size + d) q
  unfolding bytes_from byte_at
  hole-bytes b d zero hole fits = refl
  hole-bytes b d (suc q) hole fits =
      ap₂ (λ x xs. x ∷ xs) (sym (file_byte-byte_at b d (omega arith) ∙ rw hole refl))
        (hole-bytes b (suc d) q hole (omega arith) ∙ ap (λ k. bytes_from k q) (omega arith))

  data-bytes :
      (b d q : ℕ) (buf : List ℕ)
      → zona_di dev f i b ≢ 0
      → leggi dev f (zona_di dev f i b) ≡ some buf
      → length buf ≡ block_size
      → d + q ≤ block_size
      → take q (drop d buf) ≡ bytes_from (b * block_size + d) q
  unfolding bytes_from byte_at
  data-bytes b d zero buf there e size fits = refl
  data-bytes b d (suc q) buf there e size fits = rw (drop-cons buf d 0 (omega arith)) (
      ap₂ (λ x xs. x ∷ xs)
        (sym (
          file_byte-byte_at b d (omega arith)
          ∙ rw (eq_false (zona_di dev f i b == 0) (λ z. there (==→eq _ _ z)), e) refl))
        (data-bytes b (suc d) q buf there e size (omega arith)
          ∙ ap (λ k. bytes_from k q) (omega arith)))

  piece-bytes :
      (off q : ℕ)
      → Readable
      → off < (slot_at f i).size
      → off % block_size + q ≤ block_size
      → piece dev f i off q ≡ some (bytes_from off q)
  unfolding piece
  piece-bytes off q readable lt fits = elim (readable off lt) [
    | inl hole ↦
        rw (hole) (ap some (hole-bytes (off / block_size) (off % block_size) q hole fits ∙ here))
    | inr (there, (buf, e, size)) ↦
        rw (eq_false (zone_of_byte off == 0) (λ z. there (==→eq _ _ z)), e)
          (ap some
            (data-bytes (off / block_size) (off % block_size) q buf there e size fits ∙ here))
  ]
    where
      here : bytes_from (off / block_size * block_size + off % block_size) q ≡ bytes_from off q
      here = ap (λ k. bytes_from k q) (omega arith)

  read_loop-bytes :
      (rounds off left : ℕ)
      → Readable
      → left ≤ rounds
      → off + left ≤ (slot_at f i).size
      → read_loop dev f i rounds off left ≡ (bytes_from off left, true)
  unfolding read_loop read_round bytes_from
  read_loop-bytes zero off zero readable le fits = refl
  read_loop-bytes zero off (suc left) readable le fits = absurd (omega arith)
  read_loop-bytes (suc rounds) off zero readable le fits = refl
  read_loop-bytes (suc rounds) off (suc left) readable le fits =
      let q = quanti off (suc left) in
      let all : q + (suc left - q) ≡ suc left = omega arith in
      let more : (suc left == 0) ≡ false = eq_false (suc left == 0) (λ e. ground arith) in
      rw
        (
          piece-bytes off q readable (omega arith) (omega arith),
          read_loop-bytes rounds (off + q) (suc left - q) readable (omega arith) (omega arith),
          more,
        )
        (ap (λ l. (l, true))
          (sym (bytes_from-append off q (suc left - q)) ∙ ap (λ n. bytes_from off n) all))

  -- A part of the contents.
  bytes_from-slice :
      (off n size : ℕ) → off + n ≤ size → take n (drop off (bytes_from 0 size)) ≡ bytes_from off n
  bytes_from-slice off n size fits =
      let split : size ≡ off + (n + (size - off - n)) = omega arith in
      ap (λ k. take n (drop off (bytes_from 0 k))) split
      ∙ ap (λ l. take n (drop off l)) (bytes_from-append 0 off (n + (size - off - n)))
      ∙ ap (take n) (drop_prefix (bytes_from 0 off) _ off (length-bytes_from 0 off))
      ∙ ap (λ k. take n (bytes_from k (n + (size - off - n)))) (omega arith)
      ∙ ap (take n) (bytes_from-append off n (size - off - n))
      ∙ take_prefix (bytes_from off n) _ n (length-bytes_from off n)
    where
      drop_prefix : (xs ys : List ℕ) (n : ℕ) → length xs ≡ n → drop n (xs ++ ys) ≡ ys
      drop_prefix xs ys n e = ap (λ k. drop k (xs ++ ys)) (sym e) ∙ drop-length-append xs ys

      take_prefix : (xs ys : List ℕ) (n : ℕ) → length xs ≡ n → take n (xs ++ ys) ≡ xs
      take_prefix xs ys n e = ap (λ k. take k (xs ++ ys)) (sym e) ∙ take-length-append xs ys

  -- minix_read on a file whose zones can be read: the bytes of its contents from the offset on, at
  -- most as many as were asked for, with zeros for a hole, and none past the size.
  pub minix_read-contents :
      (off n : ℕ) → Readable → minix_read dev f i off n ≡ some (take n (drop off contents))
  unfolding minix_read
  minix_read-contents off n readable =
      let size = (slot_at f i).size in
      let long : length (drop off contents) ≡ size - off =
        omega (arith, length-drop off contents, length-bytes_from 0 size) in
      elim (Bool-cases (leb size off)) [
        | inl past ↦ rw past (
            ap some (
              sym (
                ap (take n) (drop-all off contents (ground (arith, length-bytes_from 0 size)))
                ∙ take-nil n)))
        | inr inside ↦ elim (Bool-cases (ltb (size - off) n)) [
          | inl cut ↦
              rw
                (
                  inside,
                  cut,
                  read_loop-bytes (size - off) off (size - off) readable (omega arith)
                      (ground arith),
                )
                (ap some (
                  sym (
                    take-all n (drop off contents) (ground (arith, long))
                    ∙ sym (take-all (size - off) (drop off contents) (omega (arith, long)))
                    ∙ bytes_from-slice off (size - off) size (ground arith))))
          | inr whole ↦
              rw (inside, whole, read_loop-bytes n off n readable (omega arith) (ground arith))
                (ap some (sym (bytes_from-slice off n size (ground arith))))
        ]
      ]
