-- ===== src/Prelude/Exceptions.antt =====
-- Exceptions as values. `FC_ASSERT` throws `assertion`; a failed look-up throws `not_found`; the
-- creation of an object whose unique key is taken throws `duplicate`; `fc::safe` throws `overflow`.
-- `null_pointer` stands for a read through a null pointer.
-- `out_of_fuel` is no exception of the program: it marks a loop cut short, and is shown not to occur.
use mathlib.Core.Path.{◌≡◌, refl, ap, subst}
use mathlib.Core.Logic.{◌≢◌}
use mathlib.Core.Bool.{Bool, true, false}
use mathlib.Core.Option.{Option, none, some}

pub data Error : Type 0 where
  assertion not_found duplicate overflow unlinkable null_pointer out_of_fuel : Error

-- how a call ends: it throws, or it returns
pub data Result {ℓ} (T : Type ℓ) : Type ℓ where
  err : (thrown : Error) → Result T
  ok : (returned : T) → Result T

-- one call after another; the second does not start when the first throws
module _ {ℓ κ} {T : Type ℓ} {U : Type κ} where
  infixl 5 ◌>>=◌
  abbrev pub ◌>>=◌ : Result T → (T → Result U) → Result U
  err thrown >>= next = err thrown
  ok returned >>= next = next returned

module _ {κ} {U : Type κ} where
  infixl 5 ◌>>◌
  abbrev pub ◌>>◌ : Result (Unit {0}) → Result U → Result U
  first >> next = first >>= λ _. next

abbrev pub fc_assert : Bool → Result (Unit {0})
fc_assert true = ok tt
fc_assert false = err assertion

-- whether a call returns
abbrev pub returns {ℓ} : {A : Type ℓ} → Result A → Bool
returns (ok a) = true
returns (err e) = false

abbrev pub or_throw {ℓ} : {A : Type ℓ} → Option A → Error → Result A
or_throw none e = err e
or_throw (some a) e = ok a

-- What holds of the result of a call that may throw, whenever it returns.
pub data Gives {A : Type 0} (P : A → Type 0) : Result A → Type 0 where
  gives : {a : A} → P a → Gives P (ok a)
  throws : {e : Error} → Gives P (err e)

module _ {A B : Type 0} {P : A → Type 0} {Q : B → Type 0} where
  pub bind-Gives :
      {m : Result A} {f : A → Result B}
      → Gives P m
      → ((a : A) → P a → Gives Q (f a))
      → Gives Q (m >>= f)
  bind-Gives (gives p) k = k _ p
  bind-Gives throws k = throws

module _ {B : Type 0} {Q : B → Type 0} where
  pub assert-Gives : (b : Bool) {k : Result B} → (b ≡ true → Gives Q k) → Gives Q (fc_assert b >> k)
  assert-Gives true h = h refl
  assert-Gives false h = throws

module _ {A : Type 0} where
  value_or : A → Result A → A
  value_or d (ok a) = a
  value_or d (err e) = d

module _ {A : Type 0} {P : A → Type 0} where
  -- what a returned value satisfies
  pub Gives-ok : {m : Result A} {a : A} → Gives P m → m ≡ ok a → P a
  unfolding value_or
  Gives-ok (gives {a = b} p) e = subst P (ap (value_or b) e) p
  Gives-ok throws e = cc

  -- one property follows from another
  pub Gives-imp : {Q : A → Type 0} {m : Result A} → Gives P m → ((a : A) → P a → Q a) → Gives Q m
  Gives-imp (gives p) h = gives (h _ p)
  Gives-imp throws h = throws

  pub throw-Gives :
      (o : Option A) (e : Error) → ((a : A) → o ≡ some a → P a) → Gives P (or_throw o e)
  throw-Gives none e h = throws
  throw-Gives (some a) e h = gives (h a refl)

-- two properties of one result
pub both-Gives :
    {A : Type 0} {P Q : A → Type 0} {m : Result A}
    → Gives P m
    → Gives Q m
    → Gives (λ a. P a × Q a) m
both-Gives (gives p) q = gives (p, Gives-ok q refl)
both-Gives throws q = throws

-- a property that follows from what a call returned
pub returned-Gives :
    {A : Type 0} {P : A → Type 0} (m : Result A) → ((a : A) → m ≡ ok a → P a) → Gives P m
returned-Gives (ok a) h = gives (h a refl)
returned-Gives (err e) h = throws

pub any-Gives : {A : Type 0} (m : Result A) → Gives (λ _. Unit {0}) m
any-Gives (ok a) = gives tt
any-Gives (err e) = throws

module _ {A B : Type 0} {Q : B → Type 0} where
  -- A call of which the rest needs only what it returned.
  pub step-Gives :
      (m : Result A) {f : A → Result B} → ((a : A) → m ≡ ok a → Gives Q (f a)) → Gives Q (m >>= f)
  step-Gives (ok a) k = k a refl
  step-Gives (err e) k = throws

-- the exceptions of the program, without the mark of a loop cut short
abbrev pub IsThrown : Error → Type 0
IsThrown e = e ≢ Error.out_of_fuel

-- A call that ends: with a value that satisfies `P`, or with an exception of the program.
pub data Ends {A : Type 0} (P : A → Type 0) : Result A → Type 0 where
  ends : {a : A} → P a → Ends P (ok a)
  fails : {e : Error} → IsThrown e → Ends P (err e)

module _ {A B : Type 0} {P : A → Type 0} {Q : B → Type 0} where
  pub bind-Ends :
      {m : Result A} {f : A → Result B}
      → Ends P m
      → ((a : A) → P a → Ends Q (f a))
      → Ends Q (m >>= f)
  bind-Ends (ends p) k = k _ p
  bind-Ends (fails h) k = fails h

module _ {A : Type 0} {P : A → Type 0} where
  pub Ends-ok : {m : Result A} {a : A} → Ends P m → m ≡ ok a → P a
  unfolding value_or
  Ends-ok (ends {a = b} p) e = subst P (ap (value_or b) e) p
  Ends-ok (fails h) e = cc

  pub throw-Ends :
      (o : Option A) (e : Error) → IsThrown e → ((a : A) → o ≡ some a → P a) → Ends P (or_throw o e)
  throw-Ends none e h k = fails h
  throw-Ends (some a) e h k = ends (k a refl)

module _ {B : Type 0} {Q : B → Type 0} where
  pub assert-Ends : (b : Bool) {k : Result B} → (b ≡ true → Ends Q k) → Ends Q (fc_assert b >> k)
  assert-Ends true h = h refl
  assert-Ends false h = fails (λ e. cc)

-- A sequence of tests that returns has passed every one.
module _ {U : Type 0} where
  pub then-ok :
      (m : Result (Unit {0})) {k : Result U} {u : U} → m >> k ≡ ok u → (m ≡ ok tt) × (k ≡ ok u)
  then-ok (ok x) h = (refl, h)
  then-ok (err e) h = cc

module _ {A U : Type 0} where
  pub bind-ok :
      (m : Result A) {f : A → Result U} {u : U}
      → m >>= f ≡ ok u
      → (a : A) × (m ≡ ok a) × (f a ≡ ok u)
  bind-ok (ok a) h = (a, refl, h)
  bind-ok (err e) h = cc

pub fc_assert-ok : (b : Bool) → fc_assert b ≡ ok tt → b ≡ true
fc_assert-ok true h = refl
fc_assert-ok false h = cc

-- A call that returns what it should, and throws what it may.
pub returned-Ends :
    {A : Type 0} {P : A → Type 0} (m : Result A)
    → Gives P m
    → ((e : Error) → m ≡ err e → IsThrown e)
    → Ends P m
returned-Ends (ok a) h k = ends (Gives-ok h refl)
returned-Ends (err e) h k = fails (k e refl)

pub Ends-imp :
    {A : Type 0} {P Q : A → Type 0} {m : Result A} → Ends P m → ((a : A) → P a → Q a) → Ends Q m
Ends-imp (ends p) h = ends (h _ p)
Ends-imp (fails h) k = fails h
