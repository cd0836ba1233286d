-- ===== src/Base/Outcome.antt =====
-- What a handler comes to: it returns, it stops the process, or the fuel of the model runs out.
use self_db_mini.Base.{◌≡◌, refl, subst, ◌≢◌, Bool, true, false, if◌then◌else◌}

pub data Outcome {ℓ} (A : Type ℓ) : Type ℓ where
  done : A → Outcome A
  -- `fatal()` or a failed `Assert()`
  abort : Outcome A
  no_fuel : Outcome A

infixl 5 ◌>>=◌ ◌>>◌
abbrev pub ◌>>=◌ {ℓ κ} : {A : Type ℓ} {B : Type κ} → Outcome A → (A → Outcome B) → Outcome B
done a >>= f = f a
abort >>= f = abort
no_fuel >>= f = no_fuel

abbrev pub ◌>>◌ {ℓ} : {B : Type ℓ} → Outcome (Unit {0}) → Outcome B → Outcome B
m >> k = m >>= λ _. k

-- `Assert(b)`
abbrev pub assert : Bool → Outcome (Unit {0})
assert true = done tt
assert false = abort

-- Every result that is returned satisfies P.
pub data Ensures {ℓ κ} {A : Type ℓ} (P : A → Type κ) : Outcome A → Type (ℓ ⊔ κ) where
  holds : {a : A} → P a → Ensures P (done a)
  aborted : Ensures P abort
  starved : Ensures P no_fuel

module _ {ℓ κ} {A : Type ℓ} {P : A → Type κ} where
  pub Ensures->>= {ι μ} :
      {B : Type ι} {Q : B → Type μ} {m : Outcome A} {f : A → Outcome B}
      → Ensures P m
      → ((a : A) → P a → Ensures Q (f a))
      → Ensures Q (m >>= f)
  Ensures->>= (holds p) k = k _ p
  Ensures->>= aborted k = aborted
  Ensures->>= starved k = starved

  pub Ensures-weaken {ι} :
      {Q : A → Type ι} {m : Outcome A} → Ensures P m → ((a : A) → P a → Q a) → Ensures Q m
  Ensures-weaken (holds p) k = holds (k _ p)
  Ensures-weaken aborted k = aborted
  Ensures-weaken starved k = starved

  pub Ensures-both {ι} :
      {Q : A → Type ι} {m : Outcome A} → Ensures P m → Ensures Q m → Ensures (λ a. P a × Q a) m
  Ensures-both (holds p) (holds q) = holds (p, q)
  Ensures-both aborted q = aborted
  Ensures-both starved q = starved

  pub Ensures-done : {a : A} → Ensures P (done a) → P a
  Ensures-done (holds p) = p

-- The value of the first step, with the equation that it was returned.
pub Ensures-bind {ℓ κ ι} :
    {A : Type ℓ} {B : Type κ} {Q : B → Type ι} (m : Outcome A) {f : A → Outcome B}
    → ((a : A) → m ≡ done a → Ensures Q (f a))
    → Ensures Q (m >>= f)
Ensures-bind (done a) k = k a refl
Ensures-bind abort k = aborted
Ensures-bind no_fuel k = starved

pub Ensures-assert {ℓ κ} :
    {B : Type ℓ} {Q : B → Type κ} (b : Bool) {m : Outcome B}
    → (b ≡ true → Ensures Q m)
    → Ensures Q (assert b >> m)
Ensures-assert true k = k refl
Ensures-assert false k = aborted

pub Ensures-if {ℓ κ} :
    {A : Type ℓ} {P : A → Type κ} (b : Bool) {m n : Outcome A}
    → (b ≡ true → Ensures P m)
    → (b ≡ false → Ensures P n)
    → Ensures P (if b then m else n)
Ensures-if true f g = f refl
Ensures-if false f g = g refl

-- The fuel of the model was enough.
pub data IsSettled {ℓ} {A : Type ℓ} : Outcome A → Type ℓ where
  returned : {a : A} → IsSettled (done a)
  stopped : IsSettled abort

pub IsSettled->>= {ℓ κ} :
    {A : Type ℓ} {B : Type κ} {m : Outcome A} {f : A → Outcome B}
    → IsSettled m
    → ((a : A) → m ≡ done a → IsSettled (f a))
    → IsSettled (m >>= f)
IsSettled->>= (returned {a = a}) k = k a refl
IsSettled->>= stopped k = stopped

pub IsSettled-assert {ℓ} :
    {B : Type ℓ} (b : Bool) {m : Outcome B} → (b ≡ true → IsSettled m) → IsSettled (assert b >> m)
IsSettled-assert true k = k refl
IsSettled-assert false k = stopped

pub IsSettled-if {ℓ} :
    {A : Type ℓ} (b : Bool) {m n : Outcome A}
    → (b ≡ true → IsSettled m)
    → (b ≡ false → IsSettled n)
    → IsSettled (if b then m else n)
IsSettled-if true f g = f refl
IsSettled-if false f g = g refl

pub IsSettled-ne {ℓ} : {A : Type ℓ} {m : Outcome A} → IsSettled m → m ≢ no_fuel
IsSettled-ne returned = cc
IsSettled-ne stopped = cc

-- What is ensured of a step holds of the value that it returned.
pub Ensures-at {ℓ κ} :
    {A : Type ℓ} {P : A → Type κ} {m : Outcome A} {a : A} → Ensures P m → m ≡ done a → P a
Ensures-at {P = P} (holds p) e = subst P (cc e) p
Ensures-at aborted e = absurd (cc e)
Ensures-at starved e = absurd (cc e)

pub ne-IsSettled {ℓ} : {A : Type ℓ} (m : Outcome A) → m ≢ no_fuel → IsSettled m
ne-IsSettled (done a) h = returned
ne-IsSettled abort h = stopped
ne-IsSettled no_fuel h = absurd (h refl)

-- The fuel was enough, and a result that is returned satisfies P.
pub data Meets {ℓ κ} {A : Type ℓ} (P : A → Type κ) : Outcome A → Type (ℓ ⊔ κ) where
  meeting : {a : A} → P a → Meets P (done a)
  stopping : Meets P abort

module _ {ℓ κ} {A : Type ℓ} {P : A → Type κ} where
  pub Meets->>= {ι μ} :
      {B : Type ι} {Q : B → Type μ} {m : Outcome A} {f : A → Outcome B}
      → Meets P m
      → ((a : A) → P a → Meets Q (f a))
      → Meets Q (m >>= f)
  Meets->>= (meeting p) k = k _ p
  Meets->>= stopping k = stopping

  pub Meets-if :
      (b : Bool) {m n : Outcome A}
      → (b ≡ true → Meets P m)
      → (b ≡ false → Meets P n)
      → Meets P (if b then m else n)
  Meets-if true f g = f refl
  Meets-if false f g = g refl

  pub Meets-assert : (b : Bool) {m : Outcome A} → (b ≡ true → Meets P m) → Meets P (assert b >> m)
  Meets-assert true k = k refl
  Meets-assert false k = stopping

  pub Meets-weaken {ι} :
      {Q : A → Type ι} {m : Outcome A} → Meets P m → ((a : A) → P a → Q a) → Meets Q m
  Meets-weaken (meeting p) k = meeting (k _ p)
  Meets-weaken stopping k = stopping

pub Meets-both {ℓ κ ι} :
    {A : Type ℓ} {P : A → Type κ} {Q : A → Type ι} {m : Outcome A}
    → Meets P m
    → Meets Q m
    → Meets (λ a. P a × Q a) m
Meets-both (meeting p) (meeting q) = meeting (p, q)
Meets-both stopping q = stopping

-- The value comes with the equation that it was returned.
pub Meets-returned {ℓ κ} :
    {A : Type ℓ} {P : A → Type κ} {m : Outcome A} → Meets P m → Meets (λ a. P a × (m ≡ done a)) m
Meets-returned (meeting p) = meeting (p, refl)
Meets-returned stopping = stopping

pub assert-Meets : (b : Bool) → Meets (λ z. b ≡ true) (assert b)
assert-Meets true = meeting refl
assert-Meets false = stopping

pub assert_ok : (b : Bool) → Meets (λ z. Unit {0}) (assert b)
assert_ok b = Meets-weaken (assert-Meets b) (λ z e. tt)

-- It returns, and the result satisfies P.
pub data Gives {ℓ κ} {A : Type ℓ} (P : A → Type κ) : Outcome A → Type (ℓ ⊔ κ) where
  giving : {a : A} → P a → Gives P (done a)

module _ {ℓ κ} {A : Type ℓ} {P : A → Type κ} where
  pub Gives-if :
      (b : Bool) {m n : Outcome A}
      → (b ≡ true → Gives P m)
      → (b ≡ false → Gives P n)
      → Gives P (if b then m else n)
  Gives-if true f g = f refl
  Gives-if false f g = g refl

  pub Gives-assert : (b : Bool) {m : Outcome A} → b ≡ true → Gives P m → Gives P (assert b >> m)
  Gives-assert true e g = g
  Gives-assert false e g = absurd (cc e)
