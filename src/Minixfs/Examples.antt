-- ===== src/Minixfs/Examples.antt =====
-- kernel/minixfs.c on a disk of ten blocks: one block of each kind, and the data from block 5 on.
use waltex.Base.{
  pos, length, take, drop, replicate, first_index, ℕ, ◌/◌, ◌≡◌, refl, ap, inr, true, false, none,
  some, List, [], ◌∷◌, ◌++◌, arith,
}
use waltex.Minixfs.Allocate.{
  trova_libero-FirstFreeBit, FirstFreeBit, BitChanged, accendi-BitChanged,
}
use waltex.Minixfs.Assign.{zona_di-zona_assegna}
use waltex.Minixfs.Bitmap.{trova_libero, accendi, change_bit}
use waltex.Minixfs.Bytes.{get16s, put16s, all16}
use waltex.Minixfs.Cache.{carica-again}
use waltex.Minixfs.Contents.{Readable, contents}
use waltex.Minixfs.Disk.{blocco_scrivi, blocco_leggi, all_bytes, all_written}
use waltex.Minixfs.File.{minix_read}
use waltex.Minixfs.Inode.{carica, inode_scrivi, store_back}
use waltex.Minixfs.NewZone.{IsLayout}
use waltex.Minixfs.Ops.{inode_of, read-contents}
use waltex.Minixfs.Ram.{ram, Ram, ram-KeepsBlocks}
use waltex.Minixfs.Record.{IsMinode}
use waltex.Minixfs.Table.{Stored, inode_scrivi-Stored}
use waltex.Minixfs.Taken.{Taken, zona_alloca-Taken}
use waltex.Minixfs.Types.{Fs, Superblock, blank_minode, Minode, tipo_da_mode}
use waltex.Minixfs.Zone.{zona_alloca, zona_di, zona_assegna, zone_bit}
use waltex.Vfs.Calls.{read, set_off, add32}
use waltex.Vfs.Descriptors.{ok, get_file_from_fd}
use waltex.Vfs.Types.{inode_file, closed_file, Vfs, o_rdonly}

abbrev zeros : List ℕ
zeros = replicate 1024 0

-- Inodes 1 and 2 and zone 5 are in use. Inode 2 is a file of 5 bytes in zone 5.
abbrev inode_two : List ℕ
inode_two = 0xA4 ∷ 0x81 ∷ 0 ∷ 0 ∷ 5 ∷ 0 ∷ 0 ∷ 0 ∷ 0 ∷ 0 ∷ 0 ∷ 0 ∷ 0 ∷ 1 ∷ 5 ∷ replicate 17 0

abbrev image : Ram
image =
    zeros
    ∷ zeros
    ∷ (7 ∷ replicate 1023 0)
    ∷ (3 ∷ replicate 1023 0)
    ∷ (replicate 32 0 ++ (inode_two ++ replicate 960 0))
    ∷ (b'h' ∷ b'e' ∷ b'l' ∷ b'l' ∷ b'o' ∷ replicate 1019 0)
    ∷ replicate 4 zeros

abbrev image_sb : Superblock
image_sb = record {
  ninodes = 32;
  nzones = 10;
  imap_blocks = 1;
  zmap_blocks = 1;
  firstdatazone = 5;
  log_zone_size = 0;
  magic = 0x137F;
}

abbrev two_file : Minode
two_file = record {
  ino = 2;
  kind = inode_file;
  size = 5;
  zone = 5 ∷ replicate 8 0;
  mode = 0o100644;
  nlinks = 1;
}

abbrev fs : List Minode → Fs Ram
fs cache = record {
  disk = image;
  attached = true;
  mounted = true;
  sb = image_sb;
  table = 4;
  cache = cache;
}

-- The filesystem as it is mounted, and with inode 2 in slot 0.
abbrev fresh_fs : Fs Ram
fresh_fs = fs (replicate 64 blank_minode)

abbrev one_file : Fs Ram
one_file = fs (two_file ∷ replicate 63 blank_minode)

image-IsLayout : IsLayout image_sb
image-IsLayout = record {
  data_after = omega arith;
  zmap_fits = omega arith;
  nzones_fit = omega arith;
}

trova_libero-FirstFreeBit_run : FirstFreeBit ram image 2 1 32 (trova_libero ram image 2 32)
trova_libero-FirstFreeBit_run = trova_libero-FirstFreeBit ram image 2 32

marked : (accendi ram image 2 3).0 ≡ true
unfolding accendi change_bit blocco_leggi blocco_scrivi all_written all_bytes
marked = refl

accendi-BitChanged_run : BitChanged ram ram-KeepsBlocks image (accendi ram image 2 3).1 2 3 false
accendi-BitChanged_run = accendi-BitChanged ram ram-KeepsBlocks image 2 3 marked

two_file-IsMinode : IsMinode two_file
unfolding tipo_da_mode all16
two_file-IsMinode = record {
  kind = refl;
  mode = omega arith;
  size = omega arith;
  nlinks = omega arith;
  zones = refl;
  zones_fit = refl;
}

stored_two : (inode_scrivi ram one_file 0).0 ≡ true
unfolding inode_scrivi store_back put16s blocco_leggi blocco_scrivi all_written all_bytes
stored_two = refl

inode_scrivi-Stored_example : Stored ram one_file 0 (inode_scrivi ram one_file 0).1
inode_scrivi-Stored_example =
    inode_scrivi-Stored ram one_file 0 ram-KeepsBlocks two_file-IsMinode stored_two

loaded_two : carica ram fresh_fs 2 ≡ (some 0, one_file)
unfolding carica first_index get16s tipo_da_mode blocco_leggi all_bytes
loaded_two = refl

carica-again_run : carica ram (carica ram fresh_fs 2).1 2 ≡ (some 0, (carica ram fresh_fs 2).1)
carica-again_run = carica-again ram fresh_fs 2 0 refl (ap (λ r. r.0) loaded_two)

new_zone_six : (zona_alloca ram one_file).0 ≡ some 6
unfolding zona_alloca zone_bit trova_libero accendi change_bit blocco_leggi blocco_scrivi
    all_written all_bytes
new_zone_six = refl

zona_alloca-Taken_example : Taken ram one_file (zona_alloca ram one_file).1 6
zona_alloca-Taken_example =
    zona_alloca-Taken ram one_file ram-KeepsBlocks image-IsLayout 6 new_zone_six

-- Block 7 of the file needs an indirect block, which the call allocates.
assigned_seven : (zona_assegna ram one_file 0 7 9).0 ≡ true
unfolding zona_assegna zona_alloca zone_bit trova_libero accendi change_bit inode_scrivi put16s
    blocco_leggi blocco_scrivi all_written all_bytes
assigned_seven = refl

zona_di-zona_assegna_example : zona_di ram (zona_assegna ram one_file 0 7 9).1 0 7 ≡ 9
zona_di-zona_assegna_example =
    zona_di-zona_assegna ram one_file 0 7 9 ram-KeepsBlocks image-IsLayout (omega arith) refl
      (omega arith) assigned_seven

abbrev hello_block : List ℕ
hello_block = b'h' ∷ b'e' ∷ b'l' ∷ b'l' ∷ b'o' ∷ replicate 1019 0

one_file-Readable : Readable ram one_file 0
unfolding zona_di blocco_leggi all_bytes
one_file-Readable k lt =
    let first : k / 1024 ≡ 0 = omega arith in
    rw first (inr (λ e. ground arith, (hello_block, refl, refl)))

read_llo : minix_read ram one_file 0 2 9 ≡ some (b'l' ∷ b'l' ∷ b'o' ∷ [])
unfolding minix_read zona_di blocco_leggi all_bytes
read_llo = refl

-- Descriptor 0 of task 0 is the file, at offset 2.
abbrev opened_file : Vfs
opened_file = record {
  root = 1;
  files = record { inode = 1; off = 2; flags = o_rdonly } ∷ replicate 31 closed_file;
  fds = some 0 ∷ replicate 63 none;
  mountpoints = [];
}

opened_entry : get_file_from_fd opened_file 0 (pos 0) ≡ some 0
unfolding get_file_from_fd
opened_entry = refl

read-contents_example :
    let bytes = take 9 (drop 2 (contents ram one_file 0)) in
    read (inode_of ram) opened_file 0 (pos 0) 9 one_file
    ≡ ok (some bytes, set_off opened_file 0 (add32 2 (length bytes)), one_file)
read-contents_example =
    read-contents ram opened_file 0 (pos 0) 9 0 0 one_file opened_entry (λ e. ground arith) refl
      refl one_file-Readable
