-- ===== src/Devio/Ram.antt =====
-- A disk in memory, for the runs: a list of sectors.
use waltex.Base.{
  ltb, ◌==◌, if◌then◌else◌, eq→==, Bool-cases, length, get_or, set, get_or-set_self, get_or-set_ne,
  ℕ, ◌≡◌, refl, ◌≢◌, inl, inr, Bool, Option, none, some, List, [], arith,
}
use waltex.Blockdev.{BlockDev, sector_size}
use waltex.Devio.Patch.{KeepsSectors}

abbrev pub Ram : Type 0
Ram = List (List ℕ)

abbrev is_whole : List ℕ → Bool
is_whole bytes = length bytes == sector_size

abbrev pub ram_read : Ram → ℕ → ℕ → Option (List ℕ)
ram_read d lba count = if is_whole (get_or d lba []) then some (get_or d lba []) else none

abbrev pub ram_write : Ram → ℕ → ℕ → List ℕ → ℕ × Ram
ram_write d lba count bytes = if ltb lba (length d) then (1, set d lba bytes) else (0, d)

abbrev pub ram_disk : BlockDev Ram
ram_disk = record { nsectors = 3; read = some ram_read; write = some ram_write }

get_or-set-other :
    (d : Ram) (lba c : ℕ) (bytes : List ℕ)
    → lba ≢ c
    → get_or (ram_write d lba 1 bytes).1 c [] ≡ get_or d c []
get_or-set-other d lba c bytes ne = elim (Bool-cases (ltb lba (length d))) [
  | inl inside ↦ rw inside (get_or-set_ne d lba c bytes [] ne)
  | inr not_there ↦ rw not_there refl
]

pub ram-KeepsSectors : KeepsSectors ram_read ram_write
ram-KeepsSectors = record {
  whole = λ d lba bytes got. ground arith;
  same = λ d lba bytes size wrote. elim (Bool-cases (ltb lba (length d))) [
    | inl inside ↦
        rw
          (
            inside,
            get_or-set_self d lba bytes [] (ground arith),
            eq→== (length bytes) sector_size size,
          )
          refl
    | inr not_there ↦ absurd (ground arith)
  ];
  other = λ d lba c bytes ne. rw (get_or-set-other d lba c bytes ne) refl;
}
