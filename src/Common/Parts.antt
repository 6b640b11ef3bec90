-- ===== src/Common/Parts.antt =====
-- The parts of a text that is put together, and texts that lack a separator.
use Prim.Native.Nat.{ℕ}
use Prim.Native.Char.{Char, code}
use Prim.Native.String.{String}
use Prim.Native.String.append
use mathlib.Core.Path.{◌≡◌, refl, sym, ap, subst, ◌∙◌}
use mathlib.Core.Bool.{Bool, true, false, not, ◌&&◌}
use mathlib.Core.List.{List, [], ◌∷◌}
use native.Mathlib.Omega.{arith}
use gracon_user_auth_service.Common.Tests.{◌==◌, if◌then◌else◌, &&-eq-true}
use gracon_user_auth_service.Common.Text.{◌⁺⁺◌, split}

-- The parts of a text before those of what follows it.
abbrev pub joined_parts : List String → List String → List String
joined_parts [] qs = qs
joined_parts (p ∷ []) [] = p ∷ []
joined_parts (p ∷ []) (q ∷ qs) = (p ⁺⁺ q) ∷ qs
joined_parts (p ∷ (p' ∷ ps)) qs = p ∷ joined_parts (p' ∷ ps) qs

abbrev begun : Char → Bool → List String → List String
begun c true parts = String.[] ∷ parts
begun c false [] = String.◌∷◌ c String.[] ∷ []
begun c false (p ∷ ps) = String.◌∷◌ c p ∷ ps

split-cons :
    (sep : ℕ) (c : Char) (s : String)
    → split sep (String.◌∷◌ c s) ≡ begun c (code c == sep) (split sep s)
unfolding split
split-cons sep c s = by_parts (code c == sep) (split sep s)
  where
    by_parts :
        (b : Bool) (ps : List String)
        → (if b
            then String.[] ∷ ps
            else elim ps [ [] ↦ String.◌∷◌ c String.[] ∷ [] | p ∷ ps' ↦ String.◌∷◌ c p ∷ ps' ])
          ≡ begun c b ps
    by_parts true ps = refl
    by_parts false [] = refl
    by_parts false (p ∷ ps) = refl

abbrev Nonempty : List String → Type 0
Nonempty [] = ⊥
Nonempty (_ ∷ _) = Unit

begun-Nonempty : (c : Char) (b : Bool) (ps : List String) → Nonempty (begun c b ps)
begun-Nonempty c true ps = tt
begun-Nonempty c false [] = tt
begun-Nonempty c false (p ∷ ps) = tt

begun-joined_parts :
    (c : Char) (b : Bool) (ps qs : List String)
    → Nonempty ps
    → begun c b (joined_parts ps qs) ≡ joined_parts (begun c b ps) qs
begun-joined_parts c b [] qs some_part = absurd some_part
begun-joined_parts c true (p ∷ ps) qs some_part = refl
begun-joined_parts c false (p ∷ []) [] some_part = refl
begun-joined_parts c false (p ∷ []) (q ∷ qs) some_part = λ i. sym (append.cons c p q) i ∷ qs
begun-joined_parts c false (p ∷ (p' ∷ ps)) qs some_part = refl

split-Nonempty : (sep : ℕ) (s : String) → Nonempty (split sep s)
unfolding split
split-Nonempty sep String.[] = tt
split-Nonempty sep (String.◌∷◌ c s) =
    subst Nonempty (sym (split-cons sep c s)) (begun-Nonempty c (code c == sep) (split sep s))

nothing_before : (qs : List String) → Nonempty qs → joined_parts (String.[] ∷ []) qs ≡ qs
nothing_before [] some_part = absurd some_part
nothing_before (q ∷ qs) some_part = λ i. append.nil q i ∷ qs

pub split-append :
    (sep : ℕ) (s t : String) → split sep (s ⁺⁺ t) ≡ joined_parts (split sep s) (split sep t)
unfolding split
split-append sep String.[] t =
    ap (split sep) (append.nil t) ∙ sym (nothing_before (split sep t) (split-Nonempty sep t))
split-append sep (String.◌∷◌ c s) t =
    ap (split sep) (append.cons c s t)
    ∙ split-cons sep c (s ⁺⁺ t)
    ∙ ap (begun c (code c == sep)) (split-append sep s t)
    ∙ begun-joined_parts c (code c == sep) (split sep s) (split sep t) (split-Nonempty sep s)
    ∙ ap (λ ps. joined_parts ps (split sep t)) (sym (split-cons sep c s))

-- A text without the separator.
unfoldable pub lacks : ℕ → String → Bool
lacks sep String.[] = true
lacks sep (String.◌∷◌ c s) = not (code c == sep) && lacks sep s

pub split-lacks : (sep : ℕ) (s : String) → lacks sep s ≡ true → split sep s ≡ s ∷ []
unfolding split lacks
split-lacks sep String.[] h = refl
split-lacks sep (String.◌∷◌ c s) h =
    let both = &&-eq-true (not (code c == sep)) (lacks sep s) h in
    let other : (code c == sep) ≡ false = ground arith in
    split-cons sep c s ∙ (λ i. begun c (other i) (split-lacks sep s both.1 i))

pub append-nil : (s : String) → s ⁺⁺ "" ≡ s
append-nil String.[] = append.nil ""
append-nil (String.◌∷◌ c s) = append.cons c s "" ∙ ap (λ v. String.◌∷◌ c v) (append-nil s)
