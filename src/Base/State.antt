-- ===== src/Base/State.antt =====
-- Code that works on a state `S`; `none` is undefined behaviour.
use mathlib.Core.Path.{◌≡◌, ap}
use mathlib.Core.Option.{Option, none, some}

abbrev pub State : Type 0 → Type 0 → Type 0
State S A = S → Option (A × S)

infixl 5 ◌>>=◌ ◌>>◌
abbrev pub ◌>>=◌ : {S A B : Type 0} → State S A → (A → State S B) → State S B
◌>>=◌ m f s = elim (m s) [ none ↦ none | some (a, s') ↦ f a s' ]

abbrev pub ◌>>◌ : {S B : Type 0} → State S (Unit {0}) → State S B → State S B
m >> k = m >>= λ _. k

abbrev pub pure : {S A : Type 0} → A → State S A
pure a s = some (a, s)

-- A result that may be undefined.
abbrev pub lift : {S A : Type 0} → Option A → State S A
lift r s = elim r [ none ↦ none | some a ↦ some (a, s) ]

abbrev pub get : {S : Type 0} → State S S
get s = some (s, s)

abbrev pub modify : {S : Type 0} → (S → S) → State S (Unit {0})
modify f s = some (tt, f s)

-- A call that works on a part of the state.
abbrev pub on_part : {S P A : Type 0} → (S → P) → (P → S → S) → State P A → State S A
on_part part put m s = elim (m (part s)) [ none ↦ none | some (a, p) ↦ some (a, put p s) ]

pub bind_run :
    {S A B : Type 0} (m : State S A) (f : A → State S B) (s s' : S) (a : A)
    → m s ≡ some (a, s')
    → (m >>= f) s ≡ f a s'
bind_run {S} {A} m f s s' a e =
    ap (λ (x : Option (A × S)). elim x [ none ↦ none | some (b, t) ↦ f b t ]) e

pub on_part_run :
    {S P A : Type 0} (part : S → P) (put : P → S → S) (m : State P A) (s : S) (a : A) (p : P)
    → m (part s) ≡ some (a, p)
    → on_part part put m s ≡ some (a, put p s)
on_part_run {S} {P} {A} part put m s a p e =
    ap (λ (x : Option (A × P)). elim x [ none ↦ none | some (b, q) ↦ some (b, put q s) ]) e
