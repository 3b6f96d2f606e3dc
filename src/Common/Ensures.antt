-- ===== src/Common/Ensures.antt =====
-- Postconditions of the steps of the loader, and a rule for each way in which steps are composed.
use mathlib.Core.Path.{subst}
use wasm2native.Common.{◌≡◌, refl, Bool, true, false, Option, none, some, if◌then◌else◌}
use wasm2native.Common.Outcome.{Result, ok, err, LoadError, ◌>>=◌, ◌>>◌, check, reject}

-- `Post` holds of the value, if there is one.
pub data Ensures {ℓ κ} {Out : Type ℓ} (Post : Out → Type κ) : Result Out → Type (ℓ ⊔ κ) where
  holds : {a : Out} → Post a → Ensures Post (ok a)
  refused : {e : LoadError} → Ensures Post (err e)

module _ {ℓ κ} {Out : Type ℓ} {Post : Out → Type κ} where
  pub Ensures-ok : {r : Result Out} {a : Out} → Ensures Post r → r ≡ ok a → Post a
  Ensures-ok (holds h) e = subst Post (cc) h
  Ensures-ok refused e = cc

  -- Any postcondition may be shown from the equation of a success.
  pub Ensures-of_ok : (r : Result Out) → ((a : Out) → r ≡ ok a → Post a) → Ensures Post r
  Ensures-of_ok (ok a) h = holds (h a refl)
  Ensures-of_ok (err e) h = refused

  pub Ensures-check :
      (b : Bool) (e : LoadError) {k : Result Out}
      → (b ≡ true → Ensures Post k)
      → Ensures Post (check b e >> k)
  Ensures-check true e h = h refl
  Ensures-check false e h = refused

  pub Ensures-reject :
      (b : Bool) (e : LoadError) {k : Result Out}
      → (b ≡ false → Ensures Post k)
      → Ensures Post (reject b e >> k)
  Ensures-reject true e h = refused
  Ensures-reject false e h = h refl

  pub Ensures-if :
      (b : Bool) {x y : Result Out}
      → (b ≡ true → Ensures Post x)
      → (b ≡ false → Ensures Post y)
      → Ensures Post (if b then x else y)
  Ensures-if true hx hy = hx refl
  Ensures-if false hx hy = hy refl

  pub Ensures-bind {ℓ'} :
      {B : Type ℓ'} (r : Result B) {f : B → Result Out}
      → ((b : B) → r ≡ ok b → Ensures Post (f b))
      → Ensures Post (r >>= f)
  Ensures-bind (ok b) k = k b refl
  Ensures-bind (err e) k = refused

  pub Ensures-then :
      (r : Result (Unit {0})) {k : Result Out}
      → (r ≡ ok tt → Ensures Post k)
      → Ensures Post (r >> k)
  Ensures-then (ok u) h = h refl
  Ensures-then (err e) h = refused

  pub Ensures-mono {κ'} :
      {Pre : Out → Type κ'} {r : Result Out}
      → Ensures Pre r
      → ((a : Out) → Pre a → Post a)
      → Ensures Post r
  Ensures-mono (holds {a} h) k = holds (k a h)
  Ensures-mono refused k = refused

  -- A lookup that may find nothing.
  pub Ensures-option {ℓ'} :
      {B : Type ℓ'} (o : Option B) (e : LoadError) {f : B → Result Out}
      → ((b : B) → o ≡ some b → Ensures Post (f b))
      → Ensures Post (elim o [ none ↦ err e | some b ↦ f b ])
  Ensures-option none e k = refused
  Ensures-option (some b) e k = k b refl
