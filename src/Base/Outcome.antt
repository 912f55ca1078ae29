-- ===== src/Base/Outcome.antt =====
-- How a Rust function that returns a `Result` can end, and the slice operations that can panic.
use mathlib.Core.Path.{◌≡◌, refl}
use mathlib.Core.Logic.{◌⊎◌, inl, inr}
use mathlib.Core.List.{List, [], ◌∷◌, ◌++◌}
use Prim.Native.Nat.{ℕ, zero, suc, ◌≤◌}
use native.Mathlib.Omega.{arith}
use bluetooth_ots_rs.Base.Tests.{leb, if◌then◌else◌, le→leb}
use bluetooth_ots_rs.Base.Lists.{length, take, drop, take-append, drop-append, length-append}

-- `ok` and `err` are the two values of `Result`. `panic` unwinds the caller, and `undefined` is
-- undefined behaviour in an `unsafe` block.
pub data Outcome {ℓ} (E : Type 0) (A : Type ℓ) : Type ℓ where
  ok : A → Outcome E A
  err : E → Outcome E A
  panic : Outcome E A
  undefined : Outcome E A

-- `?` between functions of one error type.
infixl 5 ◌>>=◌ ◌>>◌
abbrev pub ◌>>=◌ {ℓ κ} :
    {E : Type 0} {A : Type ℓ} {B : Type κ} → Outcome E A → (A → Outcome E B) → Outcome E B
ok a >>= f = f a
err e >>= f = err e
panic >>= f = panic
undefined >>= f = undefined

abbrev pub ◌>>◌ {ℓ} : {E : Type 0} {B : Type ℓ} → Outcome E (Unit {0}) → Outcome E B → Outcome E B
m >> k = m >>= λ _. k

-- `?` into a function of another error type, through its `From` conversion.
abbrev pub map_err {ℓ} : {E F : Type 0} {A : Type ℓ} → (E → F) → Outcome E A → Outcome F A
map_err f (ok a) = ok a
map_err f (err e) = err (f e)
map_err f panic = panic
map_err f undefined = undefined

-- The `Result` as a value, for a caller that goes on after an error.
abbrev pub attempt {ℓ} : {E F : Type 0} {A : Type ℓ} → Outcome E A → Outcome F (E ⊎ A)
attempt (ok a) = ok (inr a)
attempt (err e) = ok (inl e)
attempt panic = panic
attempt undefined = undefined

-- The function returns: it neither panics nor runs into undefined behaviour.
abbrev pub Returns {ℓ} : {E : Type 0} {A : Type ℓ} → Outcome E A → Type 0
Returns (ok a) = Unit {0}
Returns (err e) = Unit {0}
Returns panic = ⊥
Returns undefined = ⊥

pub >>=-Returns {ℓ κ} :
    {E : Type 0} {A : Type ℓ} {B : Type κ} (m : Outcome E A) (f : A → Outcome E B)
    → Returns m
    → ((a : A) → m ≡ ok a → Returns (f a))
    → Returns (m >>= f)
>>=-Returns (ok a) f h k = k a refl
>>=-Returns (err e) f h k = tt
>>=-Returns panic f h k = h
>>=-Returns undefined f h k = h

-- The property holds of the value that the function returns, if it returns one.
abbrev pub Ensures {ℓ κ} : {E : Type 0} {A : Type ℓ} → (A → Type κ) → Outcome E A → Type κ
Ensures P (ok a) = P a
Ensures P (err e) = Unit
Ensures P panic = Unit
Ensures P undefined = Unit

pub >>=-Ensures {ℓ κ μ} :
    {E : Type 0} {A : Type ℓ} {B : Type κ} (P : B → Type μ) (m : Outcome E A) (f : A → Outcome E B)
    → ((a : A) → m ≡ ok a → Ensures P (f a))
    → Ensures P (m >>= f)
>>=-Ensures P (ok a) f h = h a refl
>>=-Ensures P (err e) f h = tt
>>=-Ensures P panic f h = tt
>>=-Ensures P undefined f h = tt

pub Ensures-ok {ℓ κ} :
    {E : Type 0} {A : Type ℓ} (P : A → Type κ) (m : Outcome E A) {a : A}
    → Ensures P m
    → m ≡ ok a
    → P a
Ensures-ok P m h e = rw e at h

pub ok_injective {ℓ} :
    {E : Type 0} {A : Type ℓ} (a a' : A) → ◌≡◌ {A = Outcome E A} (ok a) (ok a') → a ≡ a'
ok_injective a a' e = cc

-- Two steps in a row succeed only if both do.
pub >>=-both {ℓ κ} :
    {E : Type 0} {A : Type ℓ} {B : Type κ} (first : Outcome E A) (second : A → Outcome E B) {b : B}
    → (first >>= second) ≡ ok b
    → (a : A) × (first ≡ ok a) × (second a ≡ ok b)
>>=-both (ok a) second both = (a, refl, both)
>>=-both (err _) second both = cc
>>=-both panic second both = cc
>>=-both undefined second both = cc

module _ {ℓ} {E : Type 0} {A : Type ℓ} where
  -- `<[T]>::split_at`
  unfoldable pub split_at : ℕ → List A → Outcome E (List A × List A)
  split_at n xs = if leb n (length xs) then ok (take n xs, drop n xs) else panic

  -- `&xs[n..]`
  unfoldable pub slice_from : ℕ → List A → Outcome E (List A)
  slice_from n xs = if leb n (length xs) then ok (drop n xs) else panic

  -- `&xs[..n]`
  unfoldable pub slice_to : ℕ → List A → Outcome E (List A)
  slice_to n xs = if leb n (length xs) then ok (take n xs) else panic

  -- `&xs[a..b]`, for `a ≤ b`.
  unfoldable pub slice : ℕ → ℕ → List A → Outcome E (List A)
  slice a b xs = if leb b (length xs) then ok (drop a (take b xs)) else panic

  pub split_at_within :
      (n : ℕ) (xs : List A) → n ≤ length xs → split_at n xs ≡ ok (take n xs, drop n xs)
  unfolding split_at
  split_at_within n xs h = ground arith

  pub slice_from_within : (n : ℕ) (xs : List A) → n ≤ length xs → slice_from n xs ≡ ok (drop n xs)
  unfolding slice_from
  slice_from_within n xs h = ground arith

  pub slice_to_within : (n : ℕ) (xs : List A) → n ≤ length xs → slice_to n xs ≡ ok (take n xs)
  unfolding slice_to
  slice_to_within n xs h = ground arith

  pub split_at-append :
      (n : ℕ) (xs ys : List A) → length xs ≡ n → split_at n (xs ++ ys) ≡ ok (xs, ys)
  unfolding split_at
  split_at-append n xs ys h = rw (
    le→leb n (length (xs ++ ys)) (omega (arith, length-append xs ys)),
    take-append n xs ys h,
    drop-append n xs ys h,
  )

  -- `xs[i]`
  unfoldable pub index : List A → ℕ → Outcome E A
  index [] i = panic
  index (x ∷ xs) zero = ok x
  index (x ∷ xs) (suc i) = index xs i
