-- ===== src/Manager/Popping.antt =====
-- What an application may rely on where it pops frames from a manager's network, whichever that is
-- (ARNETWORKAL_Manager_PopFrame_t of Includes/libARNetworkAL/ARNETWORKAL_Manager.h), and a caller that
-- pops until there is nothing more.
pub mod Networks
use lib_arnetwork_al.Prelude.{
  Bool-cases, Option, arith, false, if◌then◌else◌, inl, inr, none, not, refl, some, suc, zero, ℕ,
  ◌+◌, ◌<◌, ◌>>=◌, ◌≡◌, ◌≤◌, true,
}
use lib_arnetwork_al.Frame.{Frame, Return, is_default}

-- One call, from a state on which it may be called: it returns, and may be called again; where it gives
-- a frame, less waits than before.
abbrev pub Pops :
    {S : Type 0} (pop : S → Frame → Option (Return × S × Frame)) (IsOpen : S → Type 0)
    (waiting : S → ℕ)
    → S
    → Frame
    → Type 0
Pops {S} pop IsOpen waiting s f =
    (r : Return) × (s' : S) × (f' : Frame) × (pop s f ≡ some (r, s', f'))
    × IsOpen s'
    × (waiting s' + (if is_default r then 1 else 0) ≤ waiting s)

-- A network's PopFrame with a measure of what waits in its receiver.
pub record Popping : Type 1 where
  pub State : Type 0
  pub pop : State → Frame → Option (Return × State × Frame)
  pub IsOpen : State → Type 0
  pub waiting : State → ℕ
  pub pops : (s : State) (f : Frame) → IsOpen s → Pops pop IsOpen waiting s f

-- At most so many calls: the first result that is not DEFAULT, and how many frames came before it.
unfoldable pub pop_until :
    {S : Type 0} (pop : S → Frame → Option (Return × S × Frame))
    → ℕ
    → S
    → Frame
    → Option (Return × S × ℕ)
pop_until pop zero s f = none
pop_until pop (suc fuel) s f = do
  (r, s', f') ← pop s f
  let rest = pop_until pop fuel s' f'
  if is_default r then (rest >>= λ (r', s'', k). some (r', s'', suc k)) else some (r, s', 0)

-- The calls come to an end, behind at most as many frames as waited.
abbrev pub PopsAll : (network : Popping) → ℕ → network.State → Frame → Type 0
PopsAll network fuel s f =
    (r : Return) × (s' : network.State) × (k : ℕ) × (pop_until network.pop fuel s f
      ≡ some (r, s', k))
    × (is_default r ≡ false)
    × network.IsOpen s'
    × (k ≤ network.waiting s)

module _ (network : Popping) (fuel : ℕ) (s s' : network.State) (f f' : Frame) (r : Return)
    (gives : network.pop s f ≡ some (r, s', f')) where
  one_more :
      is_default r ≡ true
      → network.waiting s' + 1 ≤ network.waiting s
      → PopsAll network fuel s' f'
      → PopsAll network (suc fuel) s f
  unfolding pop_until
  one_more more fewer (r', s'', k, ran, ends, h, few) =
      (r', s'', suc k, rw (gives, more, ran) refl, ends, h, omega (arith, few, fewer))

  last_one : is_default r ≡ false → network.IsOpen s' → PopsAll network (suc fuel) s f
  unfolding pop_until
  last_one stops h = (r, s', 0, rw (gives, stops) refl, stops, h, omega arith)

-- More calls than frames wait are enough.
pub pop_until-PopsAll :
    (network : Popping) (fuel : ℕ) (s : network.State) (f : Frame)
    → network.IsOpen s
    → network.waiting s < fuel
    → PopsAll network fuel s f
pop_until-PopsAll network zero s f h enough = absurd (omega arith)
pop_until-PopsAll network (suc fuel) s f h enough =
    let (r, s', f', gives, h', less) = network.pops s f h in
    elim (Bool-cases (is_default r)) [
      | inl more ↦
          let fewer : network.waiting s' + 1 ≤ network.waiting s = rw more at less in
          one_more network fuel s s' f f' r gives more fewer
            (pop_until-PopsAll network fuel s' f' h' (omega (arith, fewer, enough)))
      | inr stops ↦ last_one network fuel s s' f f' r gives stops h'
    ]
