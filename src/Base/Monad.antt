-- ===== src/Base/Monad.antt =====
-- Functions that return a `Result`, asynchronous ones among them: each passes on the state of what is outside the
-- program, and ends in one of the ways of an `Outcome`.
use bluetooth_ots_rs.Base.{◌≡◌, refl, ◌⊎◌, inl, inr}
use bluetooth_ots_rs.Base.Outcome.{Outcome, ok, err, panic, undefined, Returns}

abbrev pub Action : Type 0 → Type 0 → Type 0 → Type 0
Action World E A = World → Outcome E A × World

module _ {World : Type 0} where
  -- What follows a step, from the way that the step ended.
  abbrev pub after :
      {E A B : Type 0} → Outcome E A × World → (A → Action World E B) → Outcome E B × World
  after (ok a, w) f = f a w
  after (err e, w) f = (err e, w)
  after (panic, w) f = (panic, w)
  after (undefined, w) f = (undefined, w)

  infixl 5 ◌>>=◌ ◌>>◌
  abbrev pub ◌>>=◌ : {E A B : Type 0} → Action World E A → (A → Action World E B) → Action World E B
  ◌>>=◌ m f w = after (m w) f

  abbrev pub ◌>>◌ : {E B : Type 0} → Action World E (Unit {0}) → Action World E B → Action World E B
  m >> k = m >>= λ _. k

  abbrev pub pure : {E A : Type 0} → A → Action World E A
  pure a w = (ok a, w)

  abbrev pub throw : {E A : Type 0} → E → Action World E A
  throw e w = (err e, w)

  -- A computation that touches nothing outside.
  abbrev pub lift : {E A : Type 0} → Outcome E A → Action World E A
  lift r w = (r, w)

  -- A call of a foreign function, with the conversion of its error.
  abbrev pub answered : {E F A : Type 0} → (F → E) → (F ⊎ A) × World → Outcome E A × World
  answered from (inl e, w) = (err (from e), w)
  answered from (inr a, w) = (ok a, w)

  abbrev pub call : {E F A : Type 0} → (F → E) → (World → (F ⊎ A) × World) → Action World E A
  call from m w = answered from (m w)

  -- A caller that looks at the `Result` instead of passing an error on.
  abbrev pub settled : {E F A : Type 0} → Outcome E A × World → Outcome F (E ⊎ A) × World
  settled (ok a, w) = (ok (inr a), w)
  settled (err e, w) = (ok (inl e), w)
  settled (panic, w) = (panic, w)
  settled (undefined, w) = (undefined, w)

  abbrev pub attempt : {E F A : Type 0} → Action World E A → Action World F (E ⊎ A)
  attempt m w = settled (m w)

module _ {World E A B : Type 0} where
  pub after-Returns :
      (r : Outcome E A × World) (f : A → Action World E B)
      → Returns r.0
      → ((a : A) (w : World) → r ≡ (ok a, w) → Returns (f a w).0)
      → Returns (after r f).0
  after-Returns (ok a, w) f h k = k a w refl
  after-Returns (err e, w) f h k = tt
  after-Returns (panic, w) f h k = h
  after-Returns (undefined, w) f h k = h

-- The property holds of the value and of the state that the action leaves, if it returns a value.
abbrev pub Leaves : {World E A : Type 0} → (A → World → Type 0) → Outcome E A × World → Type 0
Leaves P (ok a, w) = P a w
Leaves P (err e, w) = Unit {0}
Leaves P (panic, w) = Unit {0}
Leaves P (undefined, w) = Unit {0}

module _ {World E A B : Type 0} (P : B → World → Type 0) where
  pub after-Leaves :
      (r : Outcome E A × World) (f : A → Action World E B)
      → ((a : A) (w : World) → r ≡ (ok a, w) → Leaves P (f a w))
      → Leaves P (after r f)
  after-Leaves (ok a, w) f k = k a w refl
  after-Leaves (err e, w) f k = tt
  after-Leaves (panic, w) f k = tt
  after-Leaves (undefined, w) f k = tt

pub Leaves-ok :
    {World E B : Type 0} (P : B → World → Type 0) (r : Outcome E B × World) {b : B} {w : World}
    → Leaves P r
    → r ≡ (ok b, w)
    → P b w
Leaves-ok P r h e = rw e at h

pub call-Returns :
    {World E F A : Type 0} (from : F → E) (m : World → (F ⊎ A) × World) (w : World)
    → Returns (call from m w).0
call-Returns {World} {F} {A} from m w = go (m w)
  where
    go : (r : (F ⊎ A) × World) → Returns (answered from r).0
    go (inl e, w') = tt
    go (inr a, w') = tt
