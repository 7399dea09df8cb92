-- ===== src/Error/Action.antt =====
-- Methods that change a state and may fail. What was changed before an error stays changed.
use rustqlite.Base.{◌≡◌, arith}
use rustqlite.Error.{Error, Result, ok, err}

abbrev pub Action {ℓ} : Type 0 → Type ℓ → Type ℓ
Action S A = S → S × Result A

module _ {S : Type 0} where
  abbrev pub pure {ℓ} : {A : Type ℓ} → A → Action S A
  pure x s = (s, ok x)

  abbrev pub fail {ℓ} : {A : Type ℓ} → Error → Action S A
  fail e s = (s, err e)

  -- The state, and a change of it.
  abbrev pub fetch : Action S S
  fetch s = (s, ok s)

  abbrev pub modify : (S → S) → Action S (Unit {0})
  modify f s = (f s, ok tt)

  -- The operator `?`.
  abbrev pub continue {ℓ κ} :
      {A : Type ℓ} {B : Type κ} → S × Result A → (A → Action S B) → S × Result B
  continue (s, ok x) next = next x s
  continue (s, err e) next = (s, err e)

infixl 5 ◌>>=◌ ◌>>◌
abbrev pub ◌>>=◌ {ℓ κ} :
    {S : Type 0} {A : Type ℓ} {B : Type κ} → Action S A → (A → Action S B) → Action S B
(first >>= next) s = continue (first s) next

abbrev pub ◌>>◌ {κ} : {S : Type 0} {B : Type κ} → Action S (Unit {0}) → Action S B → Action S B
(first >> next) s = continue (first s) (λ u. next)

-- An action keeps a property of the state.
abbrev pub Keeps {ℓ κ} : {S : Type 0} {A : Type ℓ} → (S → Type κ) → Action S A → Type κ
Keeps {S = S} P a = (s : S) → P s → P (a s).0

pub continue-keeps {ℓ κ μ} :
    {S : Type 0} {A : Type ℓ} {B : Type κ} (P : S → Type μ) (r : S × Result A)
    (next : A → Action S B)
    → P r.0
    → ((x : A) → Keeps P (next x))
    → P (continue r next).0
continue-keeps P (s, ok x) next h k = k x s h
continue-keeps P (s, err e) next h k = h

pub Keeps-bind {ℓ κ μ} :
    {S : Type 0} {A : Type ℓ} {B : Type κ} (P : S → Type μ) (a : Action S A) (next : A → Action S B)
    → Keeps P a
    → ((x : A) → Keeps P (next x))
    → Keeps P (a >>= next)
Keeps-bind P a next h k s p = continue-keeps P (a s) next (h s p) k

pub Keeps-then {κ μ} :
    {S : Type 0} {B : Type κ} (P : S → Type μ) (a : Action S (Unit {0})) (next : Action S B)
    → Keeps P a
    → Keeps P next
    → Keeps P (a >> next)
Keeps-then P a next h k s p = continue-keeps P (a s) (λ u. next) (h s p) (λ u. k)

-- What holds of the state when no error is returned.
abbrev pub OnOk {ℓ κ} : {S : Type 0} {A : Type ℓ} → (S → Type κ) → S × Result A → Type κ
OnOk Q (s, ok x) = Q s
OnOk Q (s, err e) = Unit

pub OnOk-continue {ℓ κ μ} :
    {S : Type 0} {A : Type ℓ} {B : Type κ} (P : S → Type μ) (Q : S → Type μ) (r : S × Result A)
    (next : A → Action S B)
    → P r.0
    → ((x : A) (s : S) → P s → OnOk Q (next x s))
    → OnOk Q (continue r next)
OnOk-continue P Q (s, ok x) next h k = k x s h
OnOk-continue P Q (s, err e) next h k = tt

pub OnOk-ok {ℓ κ} :
    {S : Type 0} {A : Type ℓ} (Q : S → Type κ) (r : S × Result A) (x : A)
    → r.1 ≡ ok x
    → OnOk Q r
    → Q r.0
OnOk-ok Q (s, ok y) x e h = h
OnOk-ok Q (s, err error) x e h = ground (arith, e)

-- One property of the state after an error, another of the state and the value otherwise.
abbrev pub Ensures {ℓ κ} :
    {S : Type 0} {A : Type ℓ} → (S → Type κ) → (S → A → Type κ) → S × Result A → Type κ
Ensures P Q (s, ok x) = Q s x
Ensures P Q (s, err e) = P s

pub Ensures-bind {ℓ κ μ} :
    {S : Type 0} {A : Type ℓ} {B : Type κ} (P : S → Type μ) (Q : S → A → Type μ)
    (R : S → B → Type μ) (r : S × Result A) (next : A → Action S B)
    → Ensures P Q r
    → ((x : A) (s : S) → Q s x → Ensures P R (next x s))
    → Ensures P R (continue r next)
Ensures-bind P Q R (s, ok x) next h k = k x s h
Ensures-bind P Q R (s, err e) next h k = h

pub Ensures-keeps {ℓ κ} :
    {S : Type 0} {A : Type ℓ} (P : S → Type κ) (Q : S → A → Type κ) (r : S × Result A)
    → Ensures P Q r
    → ((x : A) (s : S) → Q s x → P s)
    → P r.0
Ensures-keeps P Q (s, ok x) h k = k x s h
Ensures-keeps P Q (s, err e) h k = h

pub Ensures-const {ℓ κ} :
    {S : Type 0} {A : Type ℓ} (P : S → Type κ) (r : S × Result A) → P r.0 → Ensures P (λ s x. P s) r
Ensures-const P (s, ok x) h = h
Ensures-const P (s, err e) h = h

pub Ensures-ok {ℓ κ} :
    {S : Type 0} {A : Type ℓ} (P : S → Type κ) (Q : S → A → Type κ) (r : S × Result A) (x : A)
    → r.1 ≡ ok x
    → Ensures P Q r
    → Q r.0 x
Ensures-ok P Q (s, ok y) x e h = let f : x ≡ y = ground (arith, e) in rw f h
Ensures-ok P Q (s, err error) x e h = absurd (ground (arith, e))
