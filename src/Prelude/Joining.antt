-- ===== src/Prelude/Joining.antt =====
-- Texts that are joined, and what tells the results apart.
use Prim.Native.Char.{Char, code}
use Prim.Native.String.append
use Prim.Native.String.{String, [], ◌∷◌, ◌++◌}
use mathlib.Core.Path.{◌≡◌, refl, sym, ◌∙◌, ap}
use mathlib.Core.Bool.{Bool, true, false}
use aurapro.Prelude.Tests.{◌==◌, if◌then◌else◌}
use native.Mathlib.Omega.{arith}

abbrev pub join : String → String → String
join s t = s ++ t

-- No character of the text is a colon.
abbrev pub IsColonFree : String → Type 0
IsColonFree [] = Unit
IsColonFree (c ∷ s) = ((code c == 58) ≡ false) × IsColonFree s

not_colon : (c : Char) → (code c == 58) ≡ false → c ≡ ":" → ⊥
not_colon c h e = let at_code : code c ≡ 58 = ap code e in ground (arith, h, at_code)

cons_injective : (c d : Char) (s t : String) → (c ∷ s) ≡ (d ∷ t) → (c ≡ d) × (s ≡ t)
cons_injective c d s t e = (cc, cc)

pub join_injective : (p s t : String) → p ++ s ≡ p ++ t → s ≡ t
join_injective [] s t e = sym (append.nil s) ∙ e ∙ append.nil t
join_injective (c ∷ p) s t e =
    join_injective p s t
      (cons_injective c c (p ++ s) (p ++ t) (sym (append.cons c p s) ∙ e ∙ append.cons c p t)).1

-- Two texts before a colon.
pub colon_injective :
    (s t u v : String)
    → IsColonFree s
    → IsColonFree t
    → s ++ (":" ∷ u) ≡ t ++ (":" ∷ v)
    → (s ≡ t) × (u ≡ v)
colon_injective [] [] u v fs ft e =
    (refl, (cons_injective ":" ":" u v (sym (append.nil (":" ∷ u)) ∙ e ∙ append.nil (":" ∷ v))).1)
colon_injective [] (d ∷ t) u v fs ft e = absurd (
    not_colon d ft.0 (
      sym
        (cons_injective ":" d u (t ++ (":" ∷ v))
          (sym (append.nil (":" ∷ u)) ∙ e ∙ append.cons d t (":" ∷ v))).0))
colon_injective (c ∷ s) [] u v fs ft e = absurd (
    not_colon c fs.0
      (cons_injective c ":" (s ++ (":" ∷ u)) v
        (sym (append.cons c s (":" ∷ u)) ∙ e ∙ append.nil (":" ∷ v))).0)
colon_injective (c ∷ s) (d ∷ t) u v fs ft e =
    let (first, rest) =
      cons_injective c d (s ++ (":" ∷ u)) (t ++ (":" ∷ v))
        (sym (append.cons c s (":" ∷ u)) ∙ e ∙ append.cons d t (":" ∷ v)) in
    let (same, later) = colon_injective s t u v fs.1 ft.1 rest in
    (ap (λ z. z) (cc (first, same)), later)

-- Two texts that are different where both are still there.
abbrev pub branches : String → String → Bool
branches [] t = false
branches (c ∷ s) [] = false
branches (c ∷ s) (d ∷ t) = let rest = branches s t in if code c == code d then rest else true

pub branches_apart : (s t u v : String) → branches s t ≡ true → s ++ u ≡ t ++ v → ⊥
branches_apart [] t u v h e = ground (arith, h)
branches_apart (c ∷ s) [] u v h e = ground (arith, h)
branches_apart (c ∷ s) (d ∷ t) u v h e =
    let (first, rest) =
      cons_injective c d (s ++ u) (t ++ v) (sym (append.cons c s u) ∙ e ∙ append.cons d t v) in
    let same : code c ≡ code d = ap code first in
    branches_apart s t u v (ground (arith, h, same)) rest

-- A colon and what comes after it.
pub join-colon : (s : String) → join ":" s ≡ ":" ∷ s
join-colon s = append.cons ":" [] s ∙ ap (λ z. ":" ∷ z) (append.nil s)
