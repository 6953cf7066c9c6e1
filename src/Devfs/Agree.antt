-- ===== src/Devfs/Agree.antt =====
-- lookup and readdir of /dev in kernel/devfs.c agree.
use waltex.Base.{
  leb, ◌==◌, ℤ, pos, negsuc, Bool-cases, none-ne-some, some_inj, length, set, get_elem?, hits_sound,
  hits_complete, ℕ, zero, suc, ◌+◌, ◌-◌, ◌≤◌, ◌<◌, ◌≡◌, refl, sym, ap, ◌∙◌, inl, inr, true, false,
  some, List, [], ◌∷◌, arith,
}
use waltex.Blockdev.{BlockDev}
use waltex.CString.{memcpy, text, strlen}
use waltex.Dev.{Registry, get, count, lookup_index, entry_at}
use waltex.Dev.Find.{lookup_index_iff}
use waltex.Dev.Invariant.{IsRegistry}
use waltex.Devfs.{Devfs, dev_lookup, dev_readdir, device_at, found_device}
use waltex.Devfs.Listing.{entry_for, served_devices, found_device-served, readdir_loop-served}
use waltex.Devfs.Prepare.{served_inode, IsDevfs, serves, prepara-Prepared}
use waltex.Devio.Entry.{CharDev, fill_inode}
use waltex.Vfs.Types.{entry, name_max}

-- A text of at most 14 bytes is not cut in a directory entry.
text-set-memcpy :
    (n : ℕ) (buf s : List ℕ)
    → n < length buf
    → n ≤ length s
    → strlen s ≤ n
    → text (set (memcpy buf s n) n 0) ≡ text s
unfolding text memcpy strlen
text-set-memcpy zero [] s room whole short = absurd (omega arith)
text-set-memcpy zero (b ∷ buf) [] room whole short = refl
text-set-memcpy zero (b ∷ buf) (c ∷ s) room whole short = ground arith
text-set-memcpy (suc n) [] s room whole short = absurd (omega arith)
text-set-memcpy (suc n) (b ∷ buf) [] room whole short = absurd (omega arith)
text-set-memcpy (suc n) (b ∷ buf) (c ∷ s) room whole short = elim (Bool-cases (c == 0)) [
  | inl nul ↦ rw nul refl
  | inr more ↦
      let rest : strlen s ≤ n = ground (arith, more, short) in
      rw (more, text-set-memcpy n buf s (omega arith) (omega arith) rest) refl
]

module _ {W D : Type 0} (chardev_at : ℕ → CharDev W) (blockdev_at : ℕ → BlockDev D) (r : Registry)
    (wr : IsRegistry r) where
  unserved-none : (i : ℕ) → r.curr ≤ i → serves chardev_at blockdev_at r i ≡ false
  unfolding fill_inode get
  unserved-none i ge = let past : leb r.curr i ≡ true = ground arith in rw (serves, past) refl

  pub get-entry_at : (i : ℕ) → i < r.curr → get r (pos i) ≡ some (entry_at r i)
  unfolding get
  get-entry_at i lt = let inside : leb r.curr i ≡ false = ground arith in rw inside refl

  pub served-lt : (i : ℕ) → serves chardev_at blockdev_at r i ≡ true → i < r.curr
  served-lt i on = elim (Bool-cases (leb r.curr i)) [
    | inl past ↦ absurd (cc (on, unserved-none i (ground arith)))
    | inr inside ↦ ground arith
  ]

  pub dev_lookup-served :
      (d : Devfs) (i : ℕ) (name : List ℕ)
      → IsDevfs chardev_at blockdev_at r d
      → i < r.curr
      → text (entry_at r i).name ≡ text name
      → serves chardev_at blockdev_at r i ≡ true
      → ((dev_lookup chardev_at blockdev_at r d name).0 ≡ some i)
        × (device_at (dev_lookup chardev_at blockdev_at r d name).1 i
            ≡ served_inode chardev_at blockdev_at r i)
  unfolding dev_lookup
  dev_lookup-served d i name w lt same on =
      rw ((lookup_index_iff r name i wr).1 (lt, same))
        (found_device-served chardev_at blockdev_at r d i w (omega (arith, wr.fits)) on)

  found_device-inverse :
      (d : Devfs) (name : List ℕ) (z : ℤ) (i : ℕ)
      → IsDevfs chardev_at blockdev_at r d
      → lookup_index r name ≡ z
      → (found_device chardev_at blockdev_at r d z).0 ≡ some i
      → (i < r.curr)
        × (text (entry_at r i).name ≡ text name)
        × (serves chardev_at blockdev_at r i ≡ true)
  unfolding found_device
  found_device-inverse d name (negsuc n) i w e found = absurd (ground arith)
  found_device-inverse d name (pos j) i w e found =
      let (lt, same) = (lookup_index_iff r name j wr).0 e in
      let p = prepara-Prepared chardev_at blockdev_at r d j w (omega (arith, wr.fits)) in
      elim (Bool-cases (serves chardev_at blockdev_at r j)) [
        | inr off ↦ absurd (none-ne-some (rw (p.answer, off) at found))
        | inl on ↦
            let here : j ≡ i = some_inj (rw (p.answer, on) at found) in rw (← here) (lt, same, on)
      ]

module _ {W D : Type 0} (chardev_at : ℕ → CharDev W) (blockdev_at : ℕ → BlockDev D) (r : Registry)
    (d : Devfs) (wr : IsRegistry r) (w : IsDevfs chardev_at blockdev_at r d) where
  dev_readdir-served :
      (idx : ℕ) (name : List ℕ)
      → ((dev_readdir chardev_at blockdev_at r d (pos idx) name).0
          ≡ entry_for chardev_at blockdev_at r name
              (get_elem? (served_devices chardev_at blockdev_at r) idx))
        × IsDevfs chardev_at blockdev_at r (dev_readdir chardev_at blockdev_at r d (pos idx) name).1
  unfolding dev_readdir count
  dev_readdir-served idx name =
      let place : idx - 0 ≡ idx = omega arith in
      let (answer, kept) =
        readdir_loop-served chardev_at blockdev_at r d idx name r.curr 0 0 w
          (omega (arith, wr.fits)) (omega arith) in
      (
        answer
            ∙ ap
                (λ k.
                  entry_for chardev_at blockdev_at r name
                    (get_elem? (served_devices chardev_at blockdev_at r) k))
                place,
        kept,
      )

  -- Where the device at place `idx` of those that are served has a name of at most 14 bytes,
  -- dev_readdir gives there the number of its inode and a name which dev_lookup resolves to that
  -- inode, with that number.
  pub dev_lookup-dev_readdir :
      (idx i : ℕ) (name : List ℕ)
      → name_max < length name
      → name_max ≤ length (entry_at r i).name
      → strlen (entry_at r i).name ≤ name_max
      → get_elem? (served_devices chardev_at blockdev_at r) idx ≡ some i
      → let d' = (dev_readdir chardev_at blockdev_at r d (pos idx) name).1 in
        let listed = set (memcpy name (entry_at r i).name name_max) name_max 0 in
        ((dev_readdir chardev_at blockdev_at r d (pos idx) name).0 ≡ entry listed (3 + i))
        × ((dev_lookup chardev_at blockdev_at r d' listed).0 ≡ some i)
        × ((device_at (dev_lookup chardev_at blockdev_at r d' listed).1 i).ino ≡ 3 + i)
  dev_lookup-dev_readdir idx i name room whole short at =
      let (lt, on) = hits_sound (serves chardev_at blockdev_at r) 0 r.curr idx i at in
      let lt' : i < r.curr = omega arith in
      let (listed, w') = dev_readdir-served idx name in
      let found =
        dev_lookup-served chardev_at blockdev_at r wr
          (dev_readdir chardev_at blockdev_at r d (pos idx) name).1 i
          (set (memcpy name (entry_at r i).name name_max) name_max 0) w' lt'
          (sym (text-set-memcpy name_max name (entry_at r i).name room whole short)) on in
      (
        listed ∙ rw (at, get-entry_at chardev_at blockdev_at r wr i lt') refl,
        found.0,
        ap (λ n. n.ino) found.1,
      )

  -- Every name that dev_lookup resolves is that of a device which dev_readdir lists at some place,
  -- under the number of the same inode.
  pub dev_lookup-listed :
      (name buf : List ℕ) (i : ℕ)
      → (dev_lookup chardev_at blockdev_at r d name).0 ≡ some i
      → (idx : ℕ) × (text (entry_at r i).name ≡ text name)
        × ((dev_readdir chardev_at blockdev_at r d (pos idx) buf).0
            ≡ entry (set (memcpy buf (entry_at r i).name name_max) name_max 0) (3 + i))
  unfolding dev_lookup
  dev_lookup-listed name buf i found =
      let (lt, same, on) =
        found_device-inverse chardev_at blockdev_at r wr d name (lookup_index r name) i w refl
          found in
      let (idx, at) =
        hits_complete (serves chardev_at blockdev_at r) 0 r.curr i (omega arith) (omega arith) on in
      (
        idx,
        same,
        (dev_readdir-served idx buf).0
            ∙ rw (at, get-entry_at chardev_at blockdev_at r wr i lt) refl,
      )
