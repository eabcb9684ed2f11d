-- ===== src/Base.antt =====
-- Shared names of the development: the libraries' names passed on, the Boolean tests on native
-- numbers, the conditional, and the case lemmas.
pub use Prim.Native.Nat.{ℕ, zero, suc, ◌+◌, ◌-◌, ◌*◌, ◌/◌, ◌%◌, ◌≤◌, ◌<◌}
pub use Prim.Native.Char.{Char, code}
pub use Prim.Native.String.{String}
pub use mathlib.Core.Path.{◌≡◌, refl, sym, ap, ◌∙◌}
pub use mathlib.Core.Logic.{◌≢◌, ◌↔◌, ◌⊎◌, inl, inr}
pub use mathlib.Core.Bool.{Bool, true, false, not, ◌&&◌, ◌||◌}
pub use mathlib.Core.Option.{Option, none, some}
pub use mathlib.Core.List.{List, [], ◌∷◌, ◌++◌, map}
pub use native.Mathlib.Omega.{arith}
pub use text.Mathlib.Text.{◌==◌ as str_eq}
pub use text.Mathlib.TextEquality.{eq_iff}
pub use text.Mathlib.TextPositions.{eq_refl}
use Prim.Native.Nat.{compare, Ordering}

abbrev pub ltb : ℕ → ℕ → Bool
ltb a b = elim (compare a b) [ Ordering.lt ↦ true | _ ↦ false ]

abbrev pub leb : ℕ → ℕ → Bool
leb a b = elim (compare a b) [ Ordering.gt ↦ false | _ ↦ true ]

abbrev pub nat_eq : ℕ → ℕ → Bool
nat_eq a b = elim (compare a b) [ Ordering.eq ↦ true | _ ↦ false ]

infix 50 ◌==◌
abbrev pub ◌==◌ : String → String → Bool
a == b = str_eq a b

infix 1 if◌then◌else◌
abbrev pub if◌then◌else◌ {ℓ} : {A : Type ℓ} → Bool → A → A → A
if true then x else y = x
if false then x else y = y

abbrev pub length {ℓ} : {A : Type ℓ} → List A → ℕ
length [] = 0
length (x ∷ xs) = suc (length xs)

abbrev pub is_some {ℓ} : {A : Type ℓ} → Option A → Bool
is_some none = false
is_some (some a) = true

-- `x or d`, `dict.get(key, d)`: the value, or a default.
abbrev pub get_or {ℓ} : {A : Type ℓ} → Option A → A → A
get_or none d = d
get_or (some a) d = a

pub Bool-cases : (b : Bool) → (b ≡ true) ⊎ (b ≡ false)
Bool-cases true = inl refl
Bool-cases false = inr refl

pub Option-cases {ℓ} : {A : Type ℓ} (o : Option A) → (o ≡ none) ⊎ ((a : A) × (o ≡ some a))
Option-cases none = inl refl
Option-cases (some a) = inr (a, refl)

-- A text equals itself, and two texts that are not equal test so.
pub ==_self : (a : String) → (a == a) ≡ true
==_self a = eq_refl a

pub ==_ne : (a b : String) → a ≢ b → (a == b) ≡ false
==_ne a b h = ground (arith, eq_iff a b)

-- `xs[i]`: none is the `IndexError`.
abbrev pub get_elem? {ℓ} : {A : Type ℓ} → List A → ℕ → Option A
get_elem? [] i = none
get_elem? (x ∷ xs) zero = some x
get_elem? (x ∷ xs) (suc i) = get_elem? xs i

-- `xs[i] = v` at an index in range.
abbrev pub set {ℓ} : {A : Type ℓ} → List A → ℕ → A → List A
set [] i v = []
set (x ∷ xs) zero v = v ∷ xs
set (x ∷ xs) (suc i) v = x ∷ set xs i v

abbrev pub contains : List String → String → Bool
contains [] s = false
contains (x ∷ xs) s = x == s || contains xs s

-- Code that raises: none is an exception, and what was written before it stays written.
abbrev pub Exec {ℓ} : Type ℓ → Type 0 → Type ℓ
Exec S A = S → Option A × S

module _ {ℓ} {S : Type ℓ} where
  abbrev pub pure : {A : Type 0} → A → Exec S A
  pure a s = (some a, s)

  abbrev pub raise : {A : Type 0} → Exec S A
  raise s = (none, s)

  abbrev pub gets : {A : Type 0} → (S → A) → Exec S A
  gets f s = (some (f s), s)

  abbrev pub modify : (S → S) → Exec S (Unit {0})
  modify f s = (some tt, f s)

  abbrev pub or_raise : {A : Type 0} → Option A → Exec S A
  or_raise none s = (none, s)
  or_raise (some a) s = (some a, s)

  abbrev pub raise_if : Bool → Exec S (Unit {0})
  raise_if b s = (if b then none else some tt, s)

  abbrev pub continue : {A B : Type 0} → (A → Exec S B) → Option A → Exec S B
  continue f none s = (none, s)
  continue f (some a) s = f a s

  infixl 5 ◌>>=◌ ◌>>◌
  abbrev pub ◌>>=◌ : {A B : Type 0} → Exec S A → (A → Exec S B) → Exec S B
  ◌>>=◌ m f s = let (r, s') = m s in continue f r s'

  abbrev pub ◌>>◌ : {A B : Type 0} → Exec S A → Exec S B → Exec S B
  m >> k = m >>= λ _. k
