-- ===== src/Coding/Packing.antt =====
-- Packed codes and their segments (backend/apps/accounting/services/coding.py).
use achr.Prelude.{
  ℕ, zero, suc, ◌+◌, ◌-◌, ◌*◌, ◌/◌, ◌%◌, ◌≤◌, ◌<◌, ◌≡◌, refl, sym, Option, some, [], ◌∷◌, ◌++◌,
  true, ◌⊎◌, inl, inr, arith, ok, ok-injective, subst,
}
use achr.Coding.{in_levels, slot_width, compute_full_code, max_sibling_code, format_full_code}

-- Packing a segment that fits its slot and reading the segments back, level by level.
unpack-1 : (c : ℕ) → c < 10000 → format_full_code c 1 ≡ c ∷ []
unfolding format_full_code
unpack-1 c h = let r : c % 10000 ≡ c = omega arith in rw r refl

unpack-2 :
    (p c : ℕ) → c < 10000 → format_full_code (p * 10000 + c) 2 ≡ format_full_code p 1 ++ (c ∷ [])
unfolding format_full_code
unpack-2 p c h =
    let q : (p * 10000 + c) / 10000 ≡ p = omega arith in
    let r : (p * 10000 + c) % 10000 ≡ c = omega arith in rw (q, r) refl

unpack-3 :
    (p c : ℕ) → c < 1000 → format_full_code (p * 1000 + c) 3 ≡ format_full_code p 2 ++ (c ∷ [])
unfolding format_full_code
unpack-3 p c h =
    let q : (p * 1000 + c) / 1000 ≡ p = omega arith in
    let r : (p * 1000 + c) % 1000 ≡ c = omega arith in rw (q, r) refl

unpack-4 : (p c : ℕ) → c < 100 → format_full_code (p * 100 + c) 4 ≡ format_full_code p 3 ++ (c ∷ [])
unfolding format_full_code
unpack-4 p c h =
    let q : (p * 100 + c) / 100 ≡ p = omega arith in
    let r : (p * 100 + c) % 100 ≡ c = omega arith in rw (q, r) refl

unpack-5 :
    (p c : ℕ) → c < 10000 → format_full_code (p * 10000 + c) 5 ≡ format_full_code p 4 ++ (c ∷ [])
unfolding format_full_code
unpack-5 p c h =
    let q : (p * 10000 + c) / 10000 ≡ p = omega arith in
    let r : (p * 10000 + c) % 10000 ≡ c = omega arith in rw (q, r) refl

pub level-cases :
    (level : ℕ)
    → in_levels level ≡ true
    → (level ≡ 1) ⊎ ((level ≡ 2) ⊎ ((level ≡ 3) ⊎ ((level ≡ 4) ⊎ (level ≡ 5))))
level-cases level h = ground arith

-- What packing promises at a level: read back, the segments are the parent's and the new one.
abbrev Unpacks : ℕ → ℕ → ℕ → ℕ → ℕ → Type 0
Unpacks parent code full max level =
    compute_full_code (some parent) code level ≡ ok full
    → max_sibling_code level ≡ ok max
    → format_full_code full level ≡ format_full_code parent (level - 1) ++ (code ∷ [])

Unpacks-2 : (parent code full max : ℕ) → code ≤ max → Unpacks parent code full max 2
unfolding compute_full_code max_sibling_code slot_width
Unpacks-2 parent code full max fits packed widest =
    let e : parent * 10000 + code ≡ full = ok-injective packed in
    let m : 9999 ≡ max = ok-injective widest in
    subst (λ f. format_full_code f 2 ≡ format_full_code parent 1 ++ (code ∷ [])) e
      (unpack-2 parent code (omega arith))

Unpacks-3 : (parent code full max : ℕ) → code ≤ max → Unpacks parent code full max 3
unfolding compute_full_code max_sibling_code slot_width
Unpacks-3 parent code full max fits packed widest =
    let e : parent * 1000 + code ≡ full = ok-injective packed in
    let m : 999 ≡ max = ok-injective widest in
    subst (λ f. format_full_code f 3 ≡ format_full_code parent 2 ++ (code ∷ [])) e
      (unpack-3 parent code (omega arith))

Unpacks-4 : (parent code full max : ℕ) → code ≤ max → Unpacks parent code full max 4
unfolding compute_full_code max_sibling_code slot_width
Unpacks-4 parent code full max fits packed widest =
    let e : parent * 100 + code ≡ full = ok-injective packed in
    let m : 99 ≡ max = ok-injective widest in
    subst (λ f. format_full_code f 4 ≡ format_full_code parent 3 ++ (code ∷ [])) e
      (unpack-4 parent code (omega arith))

Unpacks-5 : (parent code full max : ℕ) → code ≤ max → Unpacks parent code full max 5
unfolding compute_full_code max_sibling_code slot_width
Unpacks-5 parent code full max fits packed widest =
    let e : parent * 10000 + code ≡ full = ok-injective packed in
    let m : 9999 ≡ max = ok-injective widest in
    subst (λ f. format_full_code f 5 ≡ format_full_code parent 4 ++ (code ∷ [])) e
      (unpack-5 parent code (omega arith))

pub max_sibling_code-in_levels :
    (level max : ℕ) → max_sibling_code level ≡ ok max → in_levels level ≡ true
unfolding max_sibling_code slot_width
max_sibling_code-in_levels level max h = ground (arith)

-- Below level 1, where a segment is at most the greatest that the level's slot holds, the segments
-- read back from its packed full code are those of the parent's full code, with the new one last.
pub format_full_code-compute_full_code :
    (parent code level full max : ℕ)
    → compute_full_code (some parent) code level ≡ ok full
    → max_sibling_code level ≡ ok max
    → code ≤ max
    → 1 < level
    → format_full_code full level ≡ format_full_code parent (level - 1) ++ (code ∷ [])
format_full_code-compute_full_code parent code level full max packed widest fits deep =
    let at = Unpacks parent code full max in
    elim (level-cases level (max_sibling_code-in_levels level max widest)) [
      | inl e ↦ ground (arith, e, deep)
      | inr (inl e) ↦ subst at (sym e) (Unpacks-2 parent code full max fits) packed widest
      | inr (inr (inl e)) ↦ subst at (sym e) (Unpacks-3 parent code full max fits) packed widest
      | inr (inr (inr (inl e))) ↦
          subst at (sym e) (Unpacks-4 parent code full max fits) packed widest
      | inr (inr (inr (inr e))) ↦
          subst at (sym e) (Unpacks-5 parent code full max fits) packed widest
    ]

-- At level 1 the segment that fits is the only one, whatever parent is given.
pub format_full_code-root :
    (parent : Option ℕ) (code full max : ℕ)
    → compute_full_code parent code 1 ≡ ok full
    → max_sibling_code 1 ≡ ok max
    → code ≤ max
    → format_full_code full 1 ≡ code ∷ []
unfolding compute_full_code max_sibling_code slot_width
format_full_code-root parent code full max packed widest fits =
    let e : code ≡ full = ok-injective packed in
    let m : 9999 ≡ max = ok-injective widest in
    subst (λ f. format_full_code f 1 ≡ code ∷ []) e (unpack-1 code (omega arith))

-- Both at once, for a child of a row at any level.
pub format_full_code-child :
    (level parent code full max : ℕ)
    → compute_full_code (some parent) code (level + 1) ≡ ok full
    → max_sibling_code (level + 1) ≡ ok max
    → code ≤ max
    → format_full_code full (level + 1) ≡ format_full_code parent level ++ (code ∷ [])
unfolding format_full_code
format_full_code-child zero parent code full max packed widest fits =
    format_full_code-root (some parent) code full max packed widest fits
format_full_code-child (suc level) parent code full max packed widest fits =
    let e : suc level + 1 - 1 ≡ suc level = omega arith in
    subst (λ l. format_full_code full (suc level + 1) ≡ format_full_code parent l ++ (code ∷ [])) e
      (format_full_code-compute_full_code parent code (suc level + 1) full max packed widest fits
        (omega arith))
