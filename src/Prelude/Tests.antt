-- ===== src/Prelude/Tests.antt =====
-- Boolean tests on native numbers, the conditional, and results of code that throws.
use Prim.Native.Nat.{ℕ, ◌≤◌, ◌<◌, compare, Ordering}
use mathlib.Core.Path.{◌≡◌, refl, subst}
use mathlib.Core.Logic.{◌↔◌, ◌⊎◌, inl, inr}
use mathlib.Core.Bool.{Bool, true, false}
use mathlib.Core.Option.{Option, none, some}
use native.Mathlib.Omega.{arith}

abbrev pub ltb : ℕ → ℕ → Bool
ltb a b = elim (compare a b) [ Ordering.lt ↦ true | _ ↦ false ]

abbrev pub leb : ℕ → ℕ → Bool
leb a b = elim (compare a b) [ Ordering.gt ↦ false | _ ↦ true ]

infix 50 ◌==◌
abbrev pub ◌==◌ : ℕ → ℕ → Bool
a == b = elim (compare a b) [ Ordering.eq ↦ true | _ ↦ false ]

infix 1 if◌then◌else◌
abbrev pub if◌then◌else◌ {ℓ} : {A : Type ℓ} → Bool → A → A → A
if true then x else y = x
if false then x else y = y

pub ltb→lt : (a b : ℕ) → ltb a b ≡ true → a < b
ltb→lt a b h = ground arith

pub lt→ltb : (a b : ℕ) → a < b → ltb a b ≡ true
lt→ltb a b h = ground arith

pub leb→le : (a b : ℕ) → leb a b ≡ true → a ≤ b
leb→le a b h = ground arith

pub ==_iff : (a b : ℕ) → ((a == b) ≡ true) ↔ (a ≡ b)
==_iff a b = ground arith

pub Bool-cases : (b : Bool) → (b ≡ true) ⊎ (b ≡ false)
Bool-cases true = inl refl
Bool-cases false = inr refl

-- What holds of both branches, each under its test, holds of the conditional.
pub if_elim {ℓ κ} :
    {A : Type ℓ} (P : A → Type κ) (b : Bool) (x y : A)
    → (b ≡ true → P x)
    → (b ≡ false → P y)
    → P (if b then x else y)
if_elim P true x y h k = h refl
if_elim P false x y h k = k refl

pub Option-cases {ℓ} : {A : Type ℓ} (o : Option A) → (o ≡ none) ⊎ ((a : A) × (o ≡ some a))
Option-cases none = inl refl
Option-cases (some a) = inr (a, refl)

-- The exceptions that the modelled code throws or lets through. `out_of_fuel` is the model's own:
-- a loop that was given too few rounds.
pub data Exception : Type 0 where
  bad_index : Exception
  unsupported_operation : Exception
  operation_type_not_convertable : Exception
  minus_one : Exception
  data_nullptr : Exception
  invalid_index : Exception
  invalid_path : Exception
  invalid_io_request : Exception
  not_constructed : Exception
  request_not_acceptable : Exception
  unexpected_request : Exception
  failed_to_find_created_snapshot : Exception
  bad_node : Exception
  invalid_configuration : Exception
  buffer_too_small : Exception
  out_of_fuel : Exception

-- What a piece of code that may throw comes to.
pub data Result {ℓ} (A : Type ℓ) : Type ℓ where
  throw : Exception → Result A
  ok : A → Result A

-- The rest of the code runs on the value, and an exception skips it.
infixl 5 ◌>>=◌
abbrev pub ◌>>=◌ {κ ℓ} : {A : Type κ} {C : Type ℓ} → Result A → (A → Result C) → Result C
throw thrown >>= rest = throw thrown
ok value >>= rest = rest value

-- Code that returns returned in its first part, and then in the rest.
pub >>=-eq-ok {κ ℓ} :
    {A : Type κ} {C : Type ℓ} (first : Result A) (rest : A → Result C) {c : C}
    → (first >>= rest) ≡ ok c
    → (value : A) × (first ≡ ok value) × (rest value ≡ ok c)
>>=-eq-ok (throw thrown) rest returned = cc
>>=-eq-ok (ok value) rest returned = (value, refl, returned)

pub ok-injective {ℓ} : {A : Type ℓ} {a b : A} → ok a ≡ ok b → a ≡ b
ok-injective p = cc

-- The same where the value is not used: what remains is the rest.
pub >>=-ok {ℓ κ λ'} :
    {A : Type ℓ} {B : Type κ} (P : B → Type λ') (m : Result A) (v b : B)
    → (m >>= (λ _. ok v)) ≡ ok b
    → P v
    → P b
>>=-ok P (ok a) v b h p = subst P (ok-injective h) p
>>=-ok P (throw e) v b h p = cc

pub Result-cases {ℓ} :
    {A : Type ℓ} (r : Result A) → ((a : A) × (r ≡ ok a)) ⊎ ((x : Exception) × (r ≡ throw x))
Result-cases (ok a) = inl (a, refl)
Result-cases (throw x) = inr (x, refl)

-- What code that returns leaves.
abbrev pub Leaves : {A : Type 0} → (A → Type 0) → Result A → Type 0
Leaves P (ok a) = P a
Leaves P (throw e) = Unit {0}

pub Leaves-bind :
    {A B : Type 0} (P : A → Type 0) (Q : B → Type 0) (r : Result A) (f : A → Result B)
    → ((a : A) → P a → Leaves Q (f a))
    → Leaves P r
    → Leaves Q (r >>= f)
Leaves-bind P Q (ok a) f h p = h a p
Leaves-bind P Q (throw e) f h p = tt

pub Leaves-always :
    {A B : Type 0} (Q : B → Type 0) (r : Result A) (f : A → Result B)
    → ((a : A) → Leaves Q (f a))
    → Leaves Q (r >>= f)
Leaves-always Q (ok a) f h = h a
Leaves-always Q (throw e) f h = tt
