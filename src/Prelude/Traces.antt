-- ===== src/Prelude/Traces.antt =====
-- A sequence of events that a monitor follows, which may refuse one.
use mathlib.Core.Path.{◌≡◌, ap}
use mathlib.Core.Option.{Option, none, some}
use mathlib.Core.List.{List, [], ◌∷◌, ◌++◌}
use native.Mathlib.Omega.{arith}
use lib_arnetwork_al.Prelude.Tests.{◌>>=◌}

module _ {ℓ κ} {E : Type ℓ} {S : Type κ} (enter : E → S → Option S) where
  abbrev pub monitor : List E → S → Option S
  monitor [] s = some s
  monitor (e ∷ es) s = enter e s >>= monitor es

  bind-some :
      (r : Option S) (f g : S → Option S) (l : S) (x : Option S)
      → ((l1 : S) → f l1 ≡ some l → g l1 ≡ x)
      → (r >>= f) ≡ some l
      → (r >>= g) ≡ x
  bind-some none f g l x h e = absurd (grind (arith, e))
  bind-some (some l1) f g l x h e = h l1 e

  pub monitor-append :
      (es es' : List E) (s s' : S) → monitor es s ≡ some s' → monitor (es ++ es') s ≡ monitor es' s'
  monitor-append [] es' s s' h = ap (λ x. x >>= monitor es') h
  monitor-append (e ∷ es) es' s s' h =
      bind-some (enter e s) (monitor es) (monitor (es ++ es')) s' (monitor es' s')
        (λ s1 h1. monitor-append es es' s1 s' h1) h
