-- ===== src/Base/Run.antt =====
-- How a call ends. A kernel `panic` shuts the machine down, so it is an outcome and not a value;
-- `fault` is an access that C leaves undefined, `out_of_fuel` a loop that the model cut short.
use mathlib.Core.Path.{◌≡◌, refl}

pub data Run {u} (X : Type u) : Type u where
  panic : Run X
  fault : Run X
  out_of_fuel : Run X
  ok : X → Run X

-- The call comes to an end, and `Good` holds of its value.
pub data Returns {u v} {X : Type u} (Good : X → Type v) : Run X → Type (u ⊔ v) where
  returns : {x : X} → Good x → Returns Good (ok x)

infixl 5 ◌>>=◌
abbrev pub ◌>>=◌ {u v} : {X : Type u} {Y : Type v} (call : Run X) (next : X → Run Y) → Run Y
panic >>= next = panic
fault >>= next = fault
out_of_fuel >>= next = out_of_fuel
ok x >>= next = next x

-- A call that returns is a value.
pub Returns-inv {u v} :
    {X : Type u} {Good : X → Type v} {call : Run X}
    → Returns Good call
    → (x : X) × (call ≡ ok x) × Good x
Returns-inv (returns g) = (_, refl, g)

-- What holds of a value that a call returns may be weakened,
pub Returns-map {u v w} :
    {X : Type u} {Good : X → Type v} {Fair : X → Type w} {call : Run X} (g : Returns Good call)
    (weaken : (x : X) → Good x → Fair x)
    → Returns Fair call
Returns-map (returns g) weaken = returns (weaken _ g)

-- and it is what the rest of the program starts from.
pub Returns-bind {u v w z} :
    {X : Type u} {Y : Type v} {Good : X → Type w} {Fair : Y → Type z} {call : Run X}
    {next : X → Run Y} (g : Returns Good call) (rest : (x : X) → Good x → Returns Fair (next x))
    → Returns Fair (call >>= next)
Returns-bind (returns g) rest = rest _ g

-- Two things that hold of the value of one call hold together.
pub Returns-and {u v w} :
    {X : Type u} {Good : X → Type v} {Fair : X → Type w} {call : Run X}
    → Returns Good call
    → Returns Fair call
    → Returns (λ x. Good x × Fair x) call
Returns-and (returns g) (returns f) = returns (g, f)
