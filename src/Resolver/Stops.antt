-- ===== src/Resolver/Stops.antt =====
-- A resolution that is not cut short: what it returns is not the model's own error.
use leanbun.Base.{Bool, true, false, ok, err, ◌>>=◌, reject_if, Result, ◌≢◌, ◌≡◌, refl}
use leanbun.Resolver.Model.{ErrorKind, ResolutionError, error}

unfoldable pub Stops : {A : Type 0} → Result ResolutionError A → Type 0
Stops (ok a) = Unit
Stops (err e) = e.kind ≢ ErrorKind.out_of_fuel

pub Stops->>= :
    {A B : Type 0} (m : Result ResolutionError A) (next : A → Result ResolutionError B)
    → Stops m
    → ((a : A) → m ≡ ok a → Stops (next a))
    → Stops (m >>= next)
unfolding Stops
Stops->>= (ok a) next h k = k a refl
Stops->>= (err e) next h k = h

pub Stops-reject_if :
    (test : Bool) (kind : ErrorKind)
    → kind ≢ ErrorKind.out_of_fuel
    → Stops (reject_if test (error kind))
unfolding Stops
Stops-reject_if true kind h = h
Stops-reject_if false kind h = tt

pub Stops-ok : {A : Type 0} (a : A) → Stops (ok a)
unfolding Stops
Stops-ok a = tt
