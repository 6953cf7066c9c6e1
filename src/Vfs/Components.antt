-- ===== src/Vfs/Components.antt =====
-- vfs_resolve against its plain description: look the components of the path up one after another.
use waltex.Base.{
  ltb, ◌==◌, if◌then◌else◌, ==→eq, Bool-cases, Option-cases, eq_false, length, take, drop,
  length-take, length-drop, ℕ, zero, suc, ◌≤◌, ◌<◌, ◌≡◌, refl, ap, ◌∙◌, subst, ◌≢◌, ◌⊎◌, inl, inr,
  false, none, some, List, [], ◌∷◌, ◌++◌, append_assoc, append-nil, arith,
}
use waltex.CString.{strlen, strchr, IsText}
use waltex.Vfs.Resolve.{
  Resolved, found, missing, walk, enter, skip_slashes, component_length, advance,
}
use waltex.Vfs.Types.{Mount, Inode, name_max}

abbrev pub flush : List ℕ → List (List ℕ) → List (List ℕ)
flush [] rest = rest
flush (c ∷ acc) rest = (c ∷ acc) ∷ rest

-- The maximal runs of bytes that are not a slash, with the run that is being read.
unfoldable pub split : List ℕ → List ℕ → List (List ℕ)
split acc [] = flush acc []
split acc (c ∷ p) =
    let closed = split [] p in
    let longer = split (acc ++ (c ∷ [])) p in if c == b'/' then flush acc closed else longer

-- The components of a path.
abbrev pub components : List ℕ → List (List ℕ)
components p = split [] p

component_length-nil : component_length [] ≡ 0
unfolding component_length strchr strlen
component_length-nil = refl

component_length-slash : (c : ℕ) (p : List ℕ) → c ≡ b'/' → component_length (c ∷ p) ≡ 0
unfolding component_length strchr
component_length-slash c p e = ground arith

component_length-cons :
    (c : ℕ) (p : List ℕ) → c ≢ b'/' → c ≢ 0 → component_length (c ∷ p) ≡ suc (component_length p)
unfolding component_length strchr strlen
component_length-cons c p slash nul = ground arith

component_length-le : (p : List ℕ) → component_length p ≤ length p
unfolding component_length strchr strlen
component_length-le [] = omega arith
component_length-le (c ∷ p) = ground (arith, component_length-le p)

length-component : (p : List ℕ) → length (take (component_length p) p) ≡ component_length p
length-component p = omega (arith, length-take (component_length p) p, component_length-le p)

positive : (c : ℕ) (p : List ℕ) → c ≢ b'/' → c ≢ 0 → 0 < component_length (c ∷ p)
positive c p slash nul = omega (arith, component_length-cons c p slash nul)

components-skip_slashes : (p : List ℕ) → components (skip_slashes p) ≡ components p
unfolding skip_slashes split
components-skip_slashes [] = refl
components-skip_slashes (c ∷ p) = elim (Bool-cases (c == b'/')) [
  | inl e ↦ rw e (components-skip_slashes p)
  | inr e ↦ rw e (rw e)
]

IsText-skip_slashes : (p : List ℕ) → IsText p → IsText (skip_slashes p)
unfolding skip_slashes
IsText-skip_slashes [] t = t
IsText-skip_slashes (c ∷ p) t = elim (Bool-cases (c == b'/')) [
  | inl e ↦ rw e (IsText-skip_slashes p t.1)
  | inr e ↦ rw e t
]

IsText-drop : (n : ℕ) (p : List ℕ) → IsText p → IsText (drop n p)
IsText-drop zero p t = t
IsText-drop (suc n) [] t = t
IsText-drop (suc n) (c ∷ p) t = IsText-drop n p t.1

length-skip_slashes : (p : List ℕ) → length (skip_slashes p) ≤ length p
unfolding skip_slashes
length-skip_slashes [] = omega arith
length-skip_slashes (c ∷ p) = ground (arith, length-skip_slashes p)

-- After the slashes a path is at its end, or a byte that is no slash follows.
skip_slashes-head :
    (p : List ℕ)
    → (skip_slashes p ≡ []) ⊎ ((c : ℕ) × (q : List ℕ) × (skip_slashes p ≡ c ∷ q) × (c ≢ b'/'))
unfolding skip_slashes
skip_slashes-head [] = inl refl
skip_slashes-head (c ∷ p) = elim (Bool-cases (c == b'/')) [
  | inl e ↦ rw e (skip_slashes-head p)
  | inr e ↦ rw e (inr (c, p, refl, ground arith))
]

flush_snoc :
    (acc : List ℕ) (a : ℕ) (r : List (List ℕ)) → flush (acc ++ (a ∷ [])) r ≡ (acc ++ (a ∷ [])) ∷ r
flush_snoc [] a r = refl
flush_snoc (b ∷ acc) a r = refl

-- A run that is being read ends at the component's end.
split_run :
    (acc : List ℕ) (a : ℕ) (p : List ℕ)
    → IsText p
    → split (acc ++ (a ∷ [])) p
      ≡ ((acc ++ (a ∷ [])) ++ take (component_length p) p)
        ∷ components (drop (component_length p) p)
unfolding split
split_run acc a [] t = rw (component_length-nil, flush_snoc, append-nil)
split_run acc a (c ∷ p) t = elim (Bool-cases (c == b'/')) [
  | inl e ↦ rw (component_length-slash c p (==→eq c b'/' e), e, flush_snoc, append-nil)
  | inr e ↦
      rw (component_length-cons c p (ground arith) t.0, e)
        (split_run (acc ++ (a ∷ [])) c p t.1
          ∙ ap (λ l. l ∷ components (drop (component_length p) p))
              (append_assoc (acc ++ (a ∷ [])) (c ∷ []) (take (component_length p) p)))
]

-- A path that starts inside a component: the component, then the components after it.
components_first :
    (c : ℕ) (p : List ℕ)
    → IsText (c ∷ p)
    → c ≢ b'/'
    → let n = component_length (c ∷ p) in
      components (c ∷ p) ≡ take n (c ∷ p) ∷ components (drop n (c ∷ p))
unfolding split
components_first c p t slash = rw (component_length-cons c p slash t.0, ne) (split_run [] c p t.1)
  where
    ne : (c == b'/') ≡ false
    ne = ground arith

module _ {W : Type 0} (inode : W → ℕ → Inode W) (ms : List Mount) where
  -- Each component in turn: too long a name, or one that is not found, ends the walk.
  unfoldable pub descend : ℕ → List (List ℕ) → W → Resolved × W
  descend current [] w = (found current, w)
  descend current (nome ∷ rest) w =
      let step = enter inode ms current nome w in
      let go = λ (next : ℕ). descend next rest step.1 in
      if ltb name_max (length nome)
      then (missing, w)
      else elim step.0 [ none ↦ (missing, step.1) | some next ↦ go next ]

  -- A round of the walk at a component, and a step of the descent.
  advance-descend :
      (go : ℕ → List ℕ → W → Resolved × W) (current c : ℕ) (q : List ℕ) (w : W)
      → c ≢ 0
      → (let n = component_length (c ∷ q) in
          (next : ℕ) (w' : W)
          → go next (drop n (c ∷ q)) w' ≡ descend next (components (drop n (c ∷ q))) w')
      → let n = component_length (c ∷ q) in
        advance inode go ms current (c ∷ q) w
        ≡ descend current (take n (c ∷ q) ∷ components (drop n (c ∷ q))) w
  unfolding descend advance
  advance-descend go current c q w nul ih =
      let n = component_length (c ∷ q) in
      let step = enter inode ms current (take n (c ∷ q)) w in
      rw (eq_false (c == 0) (λ h. nul (==→eq c 0 h)), length-component (c ∷ q))
        (elim (Bool-cases (ltb name_max n)) [
          | inl e ↦ rw e
          | inr e ↦ elim (Option-cases step.0) [
            | inl gone ↦ rw (e, gone)
            | inr (next, got) ↦ rw (e, got) (ih next step.1)
          ]
        ])

  advance_end :
      (go : ℕ → List ℕ → W → Resolved × W) (current : ℕ) (w : W)
      → advance inode go ms current [] w ≡ descend current (components []) w
  unfolding descend advance split
  advance_end go current w = refl

  pub walk-descend :
      (rounds current : ℕ) (p : List ℕ) (w : W)
      → IsText p
      → length p < rounds
      → walk inode rounds ms current p w ≡ descend current (components p) w
  unfolding walk
  walk-descend zero current p w t fuel = absurd (omega arith)
  walk-descend (suc rounds) current p w t fuel = elim (skip_slashes-head p) [
    | inl e ↦ rw (← components-skip_slashes p, e) (advance_end _ current w)
    | inr (c, q, e, slash) ↦
        let t' : IsText (c ∷ q) = subst IsText e (IsText-skip_slashes p t) in
        let n = component_length (c ∷ q) in
        let shorter : length (c ∷ q) ≤ length p =
          subst (λ l. length l ≤ length p) e (length-skip_slashes p) in
        rw (← components-skip_slashes p, e, components_first c q t' slash)
          (advance-descend _ current c q w t'.0 (λ next w'.
            walk-descend rounds next (drop n (c ∷ q)) w' (IsText-drop n (c ∷ q) t')
              (omega (arith, length-drop n (c ∷ q), positive c q slash t'.0))))
  ]
