-- ===== src/Prelude/Options.antt =====
-- Chains of optional results, for `do` blocks.
use mathlib.Core.Bool.{Bool, true, false}
use mathlib.Core.Option.{Option, none, some}

infixl 5 ◌>>=◌ ◌>>◌
abbrev pub ◌>>=◌ {ℓ κ} : {A : Type ℓ} {B : Type κ} → Option A → (A → Option B) → Option B
none >>= f = none
some a >>= f = f a

abbrev pub ◌>>◌ {ℓ κ} : {A : Type ℓ} {B : Type κ} → Option A → Option B → Option B
none >> q = none
some a >> q = q

-- Early return with no result unless the test holds.
abbrev pub guard : Bool → Option (Unit {0})
guard true = some tt
guard false = none
