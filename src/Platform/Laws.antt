-- ===== src/Platform/Laws.antt =====
-- Inversion of a handler that returned, and the laws of a created row.
use gracon_user_auth_service.Common.{◌≡◌, refl, ◌⊎◌, inl, inr, arith, Bool, false}
use gracon_user_auth_service.Platform.Database.{Reply, accepted, rejected}
use gracon_user_auth_service.Platform.Handling.{
  World, Outcome, ok, throws, Exception, Handler, ◌>>=◌, throw_if,
}

pub Outcome-cases :
    {A : Type 0} (r : Outcome A × World)
    → ((a : A) × (w : World) × (r ≡ (ok a, w)))
      ⊎ ((e : Exception) × (w : World) × (r ≡ (throws e, w)))
Outcome-cases (ok a, w) = inl (a, w, refl)
Outcome-cases (throws e, w) = inr (e, w, refl)

pub Result-cases :
    {A : Type 0} (r : Outcome A) → ((a : A) × (r ≡ ok a)) ⊎ ((e : Exception) × (r ≡ throws e))
Result-cases (ok a) = inl (a, refl)
Result-cases (throws e) = inr (e, refl)

pub Reply-cases :
    {A : Type 0} (r : Reply A) → ((a : A) × (r ≡ accepted a)) ⊎ ((c : _) × (r ≡ rejected c))
Reply-cases (accepted a) = inl (a, refl)
Reply-cases (rejected c) = inr (c, refl)

pub >>=-eq-ok :
    {A B : Type 0} (m : Handler A) (f : A → Handler B) (w : World) {b : B} {w' : World}
    → (m >>= f) w ≡ (ok b, w')
    → (a : A) × (v : World) × (m w ≡ (ok a, v)) × (f a v ≡ (ok b, w'))
>>=-eq-ok m f w h = elim (Outcome-cases (m w)) [
  | inl (a, v, e) ↦ (a, v, e, ground arith)
  | inr (x, v, e) ↦ ground arith
]

pub throw_if-eq-ok :
    (c : Bool) (e : Exception) (w : World) {v : World} {u : Unit {0}}
    → throw_if c e w ≡ (ok u, v)
    → (c ≡ false) × (v ≡ w)
throw_if-eq-ok c e w h = ground arith
