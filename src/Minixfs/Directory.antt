-- ===== src/Minixfs/Directory.antt =====
-- The directories of kernel/minixfs.c: minix_lookup, minix_readdir, dirent_inserisci, minix_create.
use waltex.Base.{
  ltb, leb, ◌==◌, if◌then◌else◌, ℤ, pos, negsuc, length, take, drop, replicate, ℕ, zero, suc, ◌+◌,
  ◌-◌, ◌*◌, ◌/◌, ◌%◌, Bool, true, false, not, ◌||◌, Option, none, some, List, [], ◌∷◌, ◌++◌,
}
use waltex.CString.{strlen, str_eq, text}
use waltex.Minixfs.Bitmap.{spegni}
use waltex.Minixfs.Bytes.{get16}
use waltex.Blockdev.{BlockDev}
use waltex.Minixfs.File.{minix_read, minix_write}
use waltex.Minixfs.Inode.{carica, inode_scrivi, is_creatable, inode_alloca}
use waltex.Minixfs.Types.{
  put_disk, Fs, disco, dirent_size, slot_at, blocco_imap, put_slot, minix_name_max,
}
use waltex.Vfs.Types.{InodeType, is_dir, DirEntry, entry, end, refused}

-- struct minix_dirent, in the 16 bytes that were read.
abbrev pub dirent_ino : List ℕ → ℕ
dirent_ino voce = get16 voce 0

-- copia_nome: at most 14 bytes, up to a NUL.
abbrev pub copia_nome : List ℕ → List ℕ
copia_nome voce = text (take minix_name_max (drop 2 voce))

-- The 16 bytes of an entry: the number, and the name filled up with zeros.
abbrev pub encode_dirent : ℕ → List ℕ → List ℕ
encode_dirent ino nome =
    ino % 256
    ∷ ino / 256 % 256
    ∷ (take (strlen nome) nome ++ replicate (minix_name_max - strlen nome) 0)

module _ {D : Type 0} (dev : BlockDev D) where
  -- `minix_read(dir, off, &voce, DIRENT_SIZE)`, where it gives all of the 16 bytes.
  abbrev pub whole_entry : Option (List ℕ) → Option (List ℕ)
  whole_entry none = none
  whole_entry (some bytes) = if length bytes == dirent_size then some bytes else none

  abbrev pub voce_at : Fs D → ℕ → ℕ → Option (List ℕ)
  voce_at f dir off = whole_entry (minix_read dev f dir off dirent_size)

  -- One round of the loop of minix_lookup, with `rest` for the rounds after it.
  unfoldable pub lookup_round : Fs D → List ℕ → Option ℕ × Fs D → Option (List ℕ) → Option ℕ × Fs D
  lookup_round f name rest none = (none, f)
  lookup_round f name rest (some voce) =
      let loaded = carica dev f (dirent_ino voce) in
      if dirent_ino voce == 0 then rest else if str_eq (copia_nome voce) name then loaded else rest

  -- The loop of minix_lookup: as many rounds as the directory has bytes are enough.
  unfoldable pub lookup_loop : Fs D → ℕ → List ℕ → ℕ → ℕ → Option ℕ × Fs D
  unfolding lookup_round
  lookup_loop f dir name zero off = (none, f)
  lookup_loop f dir name (suc rounds) off =
      let round =
        lookup_round f name (lookup_loop f dir name rounds (off + dirent_size))
          (voce_at f dir off) in
      if leb (slot_at f dir).size off then (none, f) else round

  -- minix_lookup: the slot of the inode, or -1.
  unfoldable pub minix_lookup : Fs D → ℕ → List ℕ → Option ℕ × Fs D
  unfolding lookup_loop
  minix_lookup f dir name =
      let result = lookup_loop f dir name (slot_at f dir).size 0 in
      if not (is_dir (slot_at f dir).kind) then (none, f) else result

  abbrev pub dir_entry : Option (List ℕ) → DirEntry
  dir_entry none = refused
  dir_entry (some voce) = entry (copia_nome voce) (dirent_ino voce)

  -- minix_readdir
  unfoldable pub minix_readdir : Fs D → ℕ → ℤ → DirEntry
  minix_readdir f dir (negsuc n) = refused
  minix_readdir f dir (pos idx) =
      let read = dir_entry (voce_at f dir (idx * dirent_size)) in
      if not (is_dir (slot_at f dir).kind)
      then refused
      else if ltb idx ((slot_at f dir).size / dirent_size)
      then read
      else end

  -- The loop of dirent_inserisci: the offset of a deleted entry, or of the end.
  unfoldable pub place_round : ℕ → Option ℕ → Option (List ℕ) → Option ℕ
  place_round off rest none = none
  place_round off rest (some voce) = if dirent_ino voce == 0 then some off else rest

  unfoldable pub place_loop : Fs D → ℕ → ℕ → ℕ → Option ℕ
  unfolding place_round
  place_loop f dir zero off = some off
  place_loop f dir (suc rounds) off =
      let round =
        place_round off (place_loop f dir rounds (off + dirent_size)) (voce_at f dir off) in
      if leb (slot_at f dir).size off then some off else round

  -- `minix_write(...) != DIRENT_SIZE`
  abbrev pub all_sixteen : Option ℕ × Fs D → Bool × Fs D
  all_sixteen (none, f) = (false, f)
  all_sixteen (some count, f) = (count == dirent_size, f)

  unfoldable pub insert_at : Fs D → ℕ → List ℕ → ℕ → Option ℕ → Bool × Fs D
  insert_at f dir nome ino none = (false, f)
  insert_at f dir nome ino (some off) =
      all_sixteen (minix_write dev f dir off (encode_dirent ino nome))

  -- dirent_inserisci
  unfoldable pub dirent_inserisci : Fs D → ℕ → List ℕ → ℕ → Bool × Fs D
  unfolding insert_at place_loop
  dirent_inserisci f dir nome ino =
      let result = insert_at f dir nome ino (place_loop f dir (slot_at f dir).size 0) in
      if not (is_dir (slot_at f dir).kind)
      then (false, f)
      else if strlen nome == 0 || ltb minix_name_max (strlen nome)
      then (false, f)
      else result

  -- The rest of minix_create after each step, from the last one to the first.
  unfoldable pub create_linked : ℕ → Bool × Fs D → Option ℕ × Fs D
  create_linked nuovo (false, f) = (none, f)
  create_linked nuovo (true, f) = (some nuovo, f)

  -- `md->nlinks++`
  abbrev pub more_links : Fs D → ℕ → Fs D
  more_links f dir =
      put_slot f dir (record (slot_at f dir) { nlinks = ((slot_at f dir).nlinks + 1) % 256 })

  unfoldable pub create_dotdot : ℕ → ℕ → Bool × Fs D → Option ℕ × Fs D
  unfolding create_linked
  create_dotdot dir nuovo (false, f) = (none, f)
  create_dotdot dir nuovo (true, f) = create_linked nuovo (inode_scrivi dev (more_links f dir) dir)

  unfoldable pub create_dot : ℕ → ℕ → Bool × Fs D → Option ℕ × Fs D
  unfolding create_dotdot
  create_dot dir nuovo (false, f) = (none, f)
  create_dot dir nuovo (true, f) =
      create_dotdot dir nuovo (dirent_inserisci f nuovo (b'.' ∷ b'.' ∷ []) (slot_at f dir).ino)

  -- Where the name cannot be entered, the inode is given back: its bit and its slot.
  unfoldable pub create_named : InodeType → ℕ → ℕ → Bool × Fs D → Option ℕ × Fs D
  unfolding create_dot
  create_named tipo dir nuovo (false, f) =
      let (wrote, d) = spegni (disco dev f) f.disk blocco_imap (slot_at f nuovo).ino in
      (none, put_slot (put_disk f d) nuovo (record (slot_at f nuovo) { ino = 0 }))
  create_named tipo dir nuovo (true, f) =
      let directory =
        create_dot dir nuovo (dirent_inserisci f nuovo (b'.' ∷ []) (slot_at f nuovo).ino) in
      if is_dir tipo then directory else (some nuovo, f)

  unfoldable pub create_alloca : InodeType → ℕ → List ℕ → Option ℕ × Fs D → Option ℕ × Fs D
  unfolding create_named
  create_alloca tipo dir name (none, f) = (none, f)
  create_alloca tipo dir name (some nuovo, f) =
      create_named tipo dir nuovo (dirent_inserisci f dir name (slot_at f nuovo).ino)

  unfoldable pub create_new : InodeType → ℕ → List ℕ → Option ℕ × Fs D → Option ℕ × Fs D
  unfolding create_alloca
  create_new tipo dir name (some there, f) = (none, f)
  create_new tipo dir name (none, f) = create_alloca tipo dir name (inode_alloca dev f tipo)

  -- minix_create: the slot of the new inode, or -1.
  unfoldable pub minix_create : Fs D → ℕ → List ℕ → InodeType → Option ℕ × Fs D
  unfolding create_new
  minix_create f dir name tipo =
      let result = create_new tipo dir name (minix_lookup f dir name) in
      if not (is_dir (slot_at f dir).kind)
      then (none, f)
      else if not (is_creatable tipo)
      then (none, f)
      else if strlen name == 0 || ltb minix_name_max (strlen name)
      then (none, f)
      else result
