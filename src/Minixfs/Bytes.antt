-- ===== src/Minixfs/Bytes.antt =====
-- The little-endian fields of the packed structs of kernel/minixfs.c, in a block of bytes.
use waltex.Base.{
  ltb, length, get_or, set, length-set, get_or-set_self, get_or-set_ne, ℕ, zero, suc, ◌+◌, ◌*◌, ◌/◌,
  ◌%◌, ◌^◌, ◌≤◌, ◌<◌, ◌≡◌, refl, sym, ap₂, ◌∙◌, ◌≢◌, ◌⊎◌, inl, inr, Bool, true, ◌&&◌, List, [], ◌∷◌,
  arith,
}
use waltex.Minixfs.Disk.{is_block-set, is_block}

abbrev pub get16 : List ℕ → ℕ → ℕ
get16 buf off = get_or buf off 0 + 256 * get_or buf (off + 1) 0

abbrev pub put16 : List ℕ → ℕ → ℕ → List ℕ
put16 buf off v = set (set buf off (v % 256)) (off + 1) (v / 256 % 256)

abbrev pub get32 : List ℕ → ℕ → ℕ
get32 buf off = get16 buf off + 65536 * get16 buf (off + 2)

abbrev pub put32 : List ℕ → ℕ → ℕ → List ℕ
put32 buf off v = put16 (put16 buf off v) (off + 2) (v / 65536)

-- An array of uint16_t.
unfoldable pub get16s : List ℕ → ℕ → ℕ → List ℕ
get16s buf off zero = []
get16s buf off (suc n) = get16 buf off ∷ get16s buf (off + 2) n

unfoldable pub put16s : List ℕ → ℕ → List ℕ → List ℕ
put16s buf off [] = buf
put16s buf off (v ∷ vs) = put16s (put16 buf off v) (off + 2) vs

pub length-put16 : (buf : List ℕ) (off v : ℕ) → length (put16 buf off v) ≡ length buf
length-put16 buf off v = length-set (set buf off _) (off + 1) _ ∙ length-set buf off _

pub get_or-put16_other :
    (buf : List ℕ) (off v i : ℕ)
    → i ≢ off
    → i ≢ off + 1
    → get_or (put16 buf off v) i 0 ≡ get_or buf i 0
get_or-put16_other buf off v i ne ne' =
    get_or-set_ne (set buf off _) (off + 1) i _ 0 (λ e. ne' (sym e))
    ∙ get_or-set_ne buf off i _ 0 (λ e. ne (sym e))

pub get16-put16 :
    (buf : List ℕ) (off v : ℕ) → off + 1 < length buf → get16 (put16 buf off v) off ≡ v % 65536
get16-put16 buf off v lt =
    let low : get_or (put16 buf off v) off 0 ≡ v % 256 =
      get_or-set_ne (set buf off (v % 256)) (off + 1) off _ 0 (λ e. absurd (omega (arith, e)))
      ∙ get_or-set_self buf off (v % 256) 0 (omega arith) in
    let high : get_or (put16 buf off v) (off + 1) 0 ≡ v / 256 % 256 =
      get_or-set_self (set buf off (v % 256)) (off + 1) _ 0
        (omega (arith, length-set buf off (v % 256))) in
    omega (arith, low, high)

-- Two bytes that a put does not reach.
abbrev pub Apart : ℕ → ℕ → Type 0
Apart off i = (i + 1 < off) ⊎ (off + 1 < i)

pub get16-put16_other :
    (buf : List ℕ) (off v i : ℕ) → Apart off i → get16 (put16 buf off v) i ≡ get16 buf i
get16-put16_other buf off v i (inl before) =
    ap₂ (λ a b. a + 256 * b)
      (get_or-put16_other buf off v i (λ e. omega (arith, e)) (λ e. omega (arith, e)))
      (get_or-put16_other buf off v (i + 1) (λ e. omega (arith, e)) (λ e. omega (arith, e)))
get16-put16_other buf off v i (inr after) =
    ap₂ (λ a b. a + 256 * b)
      (get_or-put16_other buf off v i (λ e. omega (arith, e)) (λ e. omega (arith, e)))
      (get_or-put16_other buf off v (i + 1) (λ e. omega (arith, e)) (λ e. omega (arith, e)))

pub get32-put32 :
    (buf : List ℕ) (off v : ℕ) → off + 3 < length buf → v < 2 ^ 32 → get32 (put32 buf off v) off ≡ v
get32-put32 buf off v lt small = omega (
  arith,
  get16-put16_other (put16 buf off v) (off + 2) (v / 65536) off (inl (omega arith)),
  get16-put16 buf off v (omega arith),
  get16-put16 (put16 buf off v) (off + 2) (v / 65536) (omega (arith, length-put16 buf off v)),
)

pub length-put16s : (buf : List ℕ) (off : ℕ) (vs : List ℕ) → length (put16s buf off vs) ≡ length buf
unfolding put16s
length-put16s buf off [] = refl
length-put16s buf off (v ∷ vs) =
    length-put16s (put16 buf off v) (off + 2) vs ∙ length-put16 buf off v

-- An index outside the array.
abbrev pub Outside : ℕ → ℕ → ℕ → Type 0
Outside off n i = (i < off) ⊎ (off + 2 * n ≤ i)

pub get_or-put16s_other :
    (buf : List ℕ) (off : ℕ) (vs : List ℕ) (i : ℕ)
    → Outside off (length vs) i
    → get_or (put16s buf off vs) i 0 ≡ get_or buf i 0
unfolding put16s
get_or-put16s_other buf off [] i out = refl
get_or-put16s_other buf off (v ∷ vs) i (inl before) =
    get_or-put16s_other (put16 buf off v) (off + 2) vs i (inl (omega arith))
    ∙ get_or-put16_other buf off v i (λ e. omega (arith, e)) (λ e. omega (arith, e))
get_or-put16s_other buf off (v ∷ vs) i (inr after) =
    get_or-put16s_other (put16 buf off v) (off + 2) vs i (inr (omega arith))
    ∙ get_or-put16_other buf off v i (λ e. omega (arith, e)) (λ e. omega (arith, e))

-- The numbers that fit a uint16_t.
unfoldable pub all16 : List ℕ → Bool
all16 [] = true
all16 (v ∷ vs) = let rest = all16 vs in ltb v 65536 && rest

pub get16s-put16s :
    (buf : List ℕ) (off : ℕ) (vs : List ℕ)
    → off + 2 * length vs ≤ length buf
    → all16 vs ≡ true
    → get16s (put16s buf off vs) off (length vs) ≡ vs
unfolding get16s put16s all16
get16s-put16s buf off [] lt small = refl
get16s-put16s buf off (v ∷ vs) lt small =
    ap₂ (λ x xs. x ∷ xs)
      (omega (
        arith,
        get_or-put16s_other (put16 buf off v) (off + 2) vs off (inl (omega arith)),
        get_or-put16s_other (put16 buf off v) (off + 2) vs (off + 1) (inl (omega arith)),
        get16-put16 buf off v (omega arith),
        head_small small,
      ))
      (get16s-put16s (put16 buf off v) (off + 2) vs (omega (arith, length-put16 buf off v))
        (ground arith))
  where
    head_small : (ltb v 65536 && all16 vs) ≡ true → v < 65536
    head_small h = ground arith

pub is_block-put16 :
    (buf : List ℕ) (off v : ℕ) → is_block buf ≡ true → is_block (put16 buf off v) ≡ true
is_block-put16 buf off v h =
    is_block-set (set buf off (v % 256)) (off + 1) (v / 256 % 256)
      (is_block-set buf off (v % 256) h (omega arith)) (omega arith)

pub is_block-put16s :
    (buf : List ℕ) (off : ℕ) (vs : List ℕ)
    → is_block buf ≡ true
    → is_block (put16s buf off vs) ≡ true
unfolding put16s
is_block-put16s buf off [] h = h
is_block-put16s buf off (v ∷ vs) h =
    is_block-put16s (put16 buf off v) (off + 2) vs (is_block-put16 buf off v h)
