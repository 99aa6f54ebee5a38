-- ===== src/World/Runs.antt =====
-- Runs of code over the world, one rule for each way to build it.
use toomanyhours_api.Prelude.{◌≡◌, refl, ap, ◌∙◌, Result, ok, err}
use toomanyhours_api.World.{World}
use toomanyhours_api.World.Exec.{Exec, pure, raise, ◌>>=◌, or_else}

-- From `w` the code ends with the result `r` in `w'`.
pub record Runs {E A : Type 0} (m : Exec E A) (w : World) (r : Result E A) (w' : World)
    : Type 0 where
  pub run : m w ≡ (r, w')

-- What a chain and a change of the error do with the end of their first step.
abbrev continue : {E A B : Type 0} → (A → Exec E B) → Result E A × World → Result E B × World
continue f p = elim p.0 [ ok a ↦ f a p.1 | err e ↦ (err e, p.1) ]

abbrev changed : {E F A : Type 0} → (E → F) → Result E A × World → Result F A × World
changed f p = elim p.0 [ ok a ↦ (ok a, p.1) | err e ↦ (err (f e), p.1) ]

pub Runs-pure : {E A : Type 0} (a : A) (w : World) → Runs (pure {E = E} a) w (ok a) w
Runs-pure a w = record { run = refl }

pub Runs-raise : {E A : Type 0} (e : E) (w : World) → Runs (raise {A = A} e) w (err e) w
Runs-raise e w = record { run = refl }

pub Runs-bind :
    {E A B : Type 0} (m : Exec E A) (f : A → Exec E B) (a : A) {w v u : World} {r : Result E B}
    → Runs m w (ok a) v
    → Runs (f a) v r u
    → Runs (m >>= f) w r u
Runs-bind m f a h k = record { run = ap (continue f) h.run ∙ k.run }

pub Runs-stop :
    {E A B : Type 0} (m : Exec E A) (f : A → Exec E B) (e : E) {w v : World}
    → Runs m w (err e) v
    → Runs (m >>= f) w (err e) v
Runs-stop m f e h = record { run = ap (continue f) h.run }

pub Runs-or_else :
    {E F A : Type 0} (m : Exec E A) (f : E → F) (a : A) {w v : World}
    → Runs m w (ok a) v
    → Runs (or_else m f) w (ok a) v
Runs-or_else m f a h = record { run = ap (changed f) h.run }

pub Runs-or_else_fails :
    {E F A : Type 0} (m : Exec E A) (f : E → F) (e : E) {w v : World}
    → Runs m w (err e) v
    → Runs (or_else m f) w (err (f e)) v
Runs-or_else_fails m f e h = record { run = ap (changed f) h.run }
