-- ===== src/Common/Fallible.antt =====
-- Code that may fail: `none` is a failed assertion, an abort or an exit.
use mathlib.Core.Path.{◌≡◌, ap, subst}
use mathlib.Core.Bool.{Bool, true, false}
use mathlib.Core.Option.{Option, none, some}
use c3_simulator.Common.Tests.{if◌then◌else◌}

infixl 5 ◌>>=◌
abbrev pub ◌>>=◌ : {A B : Type 0} → Option A → (A → Option B) → Option B
none >>= k = none
some r >>= k = k r

-- An assertion in front of the rest of a function.
infixr 3 assert◌then◌
abbrev pub assert◌then◌ : {A : Type 0} → Bool → Option A → Option A
assert b then k = if b then k else none

pub bind_some :
    {A B : Type 0} {r : Option A} {a : A} (k : A → Option B) → r ≡ some a → (r >>= k) ≡ k a
bind_some k e = ap (λ r. r >>= k) e

-- What holds of the result when there is one.
unfoldable pub Holds : {A : Type 0} → (A → Type 0) → Option A → Type 0
Holds P none = Unit
Holds P (some a) = P a

pub Holds-some : {A : Type 0} (P : A → Type 0) (a : A) → P a → Holds P (some a)
unfolding Holds
Holds-some P a h = h

pub Holds-none : {A : Type 0} (P : A → Type 0) → Holds P none
unfolding Holds
Holds-none P = _

pub Holds-bind :
    {A B : Type 0} (P : A → Type 0) (Q : B → Type 0) (r : Option A) (k : A → Option B)
    → Holds P r
    → ((a : A) → P a → Holds Q (k a))
    → Holds Q (r >>= k)
unfolding Holds
Holds-bind P Q none k h next = _
Holds-bind P Q (some a) k h next = next a h

pub if_either :
    {A : Type 0} (P : A → Type 0) (b : Bool) (x y : A) → P x → P y → P (if b then x else y)
if_either P true x y p q = p
if_either P false x y p q = q

pub Holds-assert :
    {A : Type 0} (P : A → Type 0) (b : Bool) (r : Option A) → Holds P r → Holds P (assert b then r)
unfolding Holds
Holds-assert P true r h = h
Holds-assert P false r h = _

-- Every result will do.
pub Holds-any : {A : Type 0} (r : Option A) → Holds (λ _. Unit) r
unfolding Holds
Holds-any none = _
Holds-any (some a) = _

pub Holds_elim : {A : Type 0} (P : A → Type 0) {r : Option A} (a : A) → Holds P r → r ≡ some a → P a
unfolding Holds
Holds_elim P a h e = subst (Holds P) e h

pub bind_none : {A B : Type 0} {r : Option A} (k : A → Option B) → r ≡ none → (r >>= k) ≡ none
bind_none k e = ap (λ r. r >>= k) e
