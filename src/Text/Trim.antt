-- ===== src/Text/Trim.antt =====
-- `strings.TrimSpace`.
use mathlib.Core.List.{reverse, reverse-reverse, reverse-append}
use my_demo_app.Prelude.{
  ℕ, ◌≡◌, refl, sym, ap, ◌∙◌, inl, inr, Bool, false, ◌&&◌, ◌||◌, [], ◌∷◌, ◌++◌, arith, leb, ◌==◌,
  if◌then◌else◌, Bool-cases,
}
use my_demo_app.Text.{Str}

-- `unicode.IsSpace`.
unfoldable pub is_space : ℕ → Bool
is_space c =
    (leb 9 c && leb c 13)
    || (c == 32)
    || (c == 0x85)
    || (c == 0xa0)
    || (c == 0x1680)
    || (leb 0x2000 c && leb c 0x200a)
    || (c == 0x2028)
    || (c == 0x2029)
    || (c == 0x202f)
    || (c == 0x205f)
    || (c == 0x3000)

unfoldable pub trim_left : Str → Str
trim_left [] = []
trim_left (c ∷ s) = if is_space c then trim_left s else c ∷ s

unfoldable pub trim_space : Str → Str
unfolding trim_left is_space
trim_space s = reverse (trim_left (reverse (trim_left s)))

-- No white space at the front.
abbrev pub StartsSolid : Str → Type 0
StartsSolid [] = Unit
StartsSolid (c ∷ s) = is_space c ≡ false

pub record IsTrimmed (s : Str) : Type 0 where
  pub front : StartsSolid s
  pub back : StartsSolid (reverse s)

trim_left-StartsSolid : (s : Str) → StartsSolid (trim_left s)
unfolding trim_left
trim_left-StartsSolid [] = tt
trim_left-StartsSolid (c ∷ s) = ground (arith, trim_left-StartsSolid s)

trim_left_of_StartsSolid : (s : Str) → StartsSolid s → trim_left s ≡ s
unfolding trim_left
trim_left_of_StartsSolid [] h = refl
trim_left_of_StartsSolid (c ∷ s) h = ground arith

trim_left_split : (s : Str) → (p : Str) × (s ≡ p ++ trim_left s)
unfolding trim_left
trim_left_split [] = ([], refl)
trim_left_split (c ∷ s) = elim (Bool-cases (is_space c)) [
  | inl space ↦ let (p, e) = trim_left_split s in (c ∷ p, rw space (ap (λ t. c ∷ t) e))
  | inr solid ↦ ([], rw solid)
]

StartsSolid-of_append : (s t : Str) → StartsSolid (s ++ t) → StartsSolid s
StartsSolid-of_append [] t h = tt
StartsSolid-of_append (c ∷ s) t h = h

reverse_split : (s p t : Str) → reverse s ≡ p ++ t → s ≡ reverse t ++ reverse p
reverse_split s p t e = sym (reverse-reverse s) ∙ ap reverse e ∙ reverse-append p t

-- What `TrimSpace` returns has no white space at either end.
pub trim_space-IsTrimmed : (s : Str) → IsTrimmed (trim_space s)
unfolding trim_space
trim_space-IsTrimmed s =
    let u = trim_left s in
    let (p, e) = trim_left_split (reverse u) in
    let r = trim_left (reverse u) in
    let split : u ≡ reverse r ++ reverse p = reverse_split u p r e in
    record {
      front =
          StartsSolid-of_append (reverse r) (reverse p) (rw (← split) (trim_left-StartsSolid s));
      back = rw reverse-reverse (trim_left-StartsSolid (reverse u));
    }

-- Trimming trimmed text changes nothing.
pub trim_space_of_IsTrimmed : (s : Str) → IsTrimmed s → trim_space s ≡ s
unfolding trim_space
trim_space_of_IsTrimmed s h =
    rw (trim_left_of_StartsSolid s h.front, trim_left_of_StartsSolid (reverse s) h.back)
      (reverse-reverse s)
