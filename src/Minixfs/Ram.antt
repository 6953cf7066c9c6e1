-- ===== src/Minixfs/Ram.antt =====
-- A disk in memory, for the runs: it reads and writes whole blocks.
use waltex.Base.{
  ltb, if◌then◌else◌, Bool-cases, length, get_or, set, get_or-set_self, get_or-set_ne, ℕ, ◌*◌, ◌/◌,
  ◌<◌, ◌≡◌, refl, sym, ap, ◌∙◌, inl, inr, Bool, true, false, ◌&&◌, Option, none, some, List, [],
  arith,
}
use waltex.Blockdev.{BlockDev}
use waltex.Minixfs.Disk.{KeepsBlocks, is_block, blocco_leggi, all_written, blocco_scrivi}

abbrev pub Ram : Type 0
Ram = List (List ℕ)

abbrev pub ram : BlockDev Ram
ram = record {
  nsectors = 8192;
  read = some (λ d s n. let b = get_or d (s / 2) [] in if is_block b then some b else none);
  write = some (λ d s n bytes.
      if ltb (s / 2) (length d) && is_block bytes then (2, set d (s / 2) bytes) else (0, d));
}

half : (b : ℕ) → b * 2 / 2 ≡ b
half b = omega arith

ram-leggi :
    (d : Ram) (b : ℕ)
    → blocco_leggi ram d b ≡ (if is_block (get_or d b []) then some (get_or d b []) else none)
unfolding blocco_leggi
ram-leggi d b = rw (half b) refl

ram-scrivi :
    (d : Ram) (b : ℕ) (bytes : List ℕ)
    → blocco_scrivi ram d b bytes
      ≡ (if ltb b (length d) && is_block bytes then (true, set d b bytes) else (false, d))
unfolding blocco_scrivi all_written
ram-scrivi d b bytes = rw (half b) (elim (Bool-cases (ltb b (length d) && is_block bytes)) [
  | inl fits ↦ rw fits refl
  | inr bad ↦ rw bad refl
])

abbrev value : Option (List ℕ) → List ℕ
value none = []
value (some bytes) = bytes

read-is_block :
    (x bytes : List ℕ) (b : Bool)
    → is_block x ≡ b
    → (if b then some x else none) ≡ some bytes
    → is_block bytes ≡ true
read-is_block x bytes true block e = ap is_block (sym (ap value e)) ∙ block
read-is_block x bytes false block e = absurd (ground arith)

ram_took :
    (d : Ram) (b : ℕ) (bytes : List ℕ)
    → (blocco_scrivi ram d b bytes).0 ≡ true
    → (b < length d) × (blocco_scrivi ram d b bytes ≡ (true, set d b bytes))
ram_took d b bytes took =
    let (fits, e) =
      go (ltb b (length d) && is_block bytes) (ap (λ r. r.0) (sym (ram-scrivi d b bytes)) ∙ took) in
    (ground (arith, fits), ram-scrivi d b bytes ∙ e)
  where
    outcome : Bool → Bool × Ram
    outcome fits = if fits then (true, set d b bytes) else (false, d)

    go :
        (fits : Bool)
        → (outcome fits).0 ≡ true
        → (fits ≡ true) × (outcome fits ≡ (true, set d b bytes))
    go true h = (refl, refl)
    go false h = absurd (ground arith)

pub ram-KeepsBlocks : KeepsBlocks ram
ram-KeepsBlocks = record {
  whole = λ d b bytes e. read-is_block (get_or d b []) bytes _ refl (sym (ram-leggi d b) ∙ e);
  same = λ d b bytes block took.
      let (lt, e) = ram_took d b bytes took in
      ap (λ r. blocco_leggi ram r.1 b) e
      ∙ ram-leggi (set d b bytes) b
      ∙ ap (λ x. if is_block x then some x else none) (get_or-set_self d b bytes [] lt)
      ∙ ap (λ c. if c then some bytes else none) block;
  other = λ d b c bytes took ne.
      let (lt, e) = ram_took d b bytes took in
      ap (λ r. blocco_leggi ram r.1 c) e
      ∙ ram-leggi (set d b bytes) c
      ∙ ap (λ x. if is_block x then some x else none) (get_or-set_ne d b c bytes [] ne)
      ∙ sym (ram-leggi d c);
}
