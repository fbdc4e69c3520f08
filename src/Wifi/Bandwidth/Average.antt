-- ===== src/Wifi/Bandwidth/Average.antt =====
-- The loop of the bandwidth thread, and the averages that GetBandwidth writes behind it.
use lib_arnetwork_al.Prelude.{
  ℕ, zero, suc, ◌+◌, ◌/◌, ◌%◌, ◌<◌, ◌≡◌, refl, ap, ◌∙◌, Bool, none, some, List, [], ◌∷◌, ◌++◌,
  arith, take, drop, add_u32, u32_mod, if◌then◌else◌,
}
use lib_arnetwork_al.Platform.{etimedout}
use lib_arnetwork_al.Errors.{ok}
use lib_arnetwork_al.Wifi.{WifiObject, Manager}
use lib_arnetwork_al.Wifi.Bandwidth.{
  count, progress, Period, wait_failed, bandwidth_loop, sum_elements, average, get_bandwidth,
}
use lib_arnetwork_al.Wifi.Bandwidth.Window.{IsMeter, window, progress-window}

abbrev pub sum : List ℕ → ℕ
sum [] = 0
sum (x ∷ xs) = x + sum xs

-- The totals of some periods that time out, with what the counter held before them.
abbrev pub totals : ℕ → List (List ℕ) → List ℕ
totals counted [] = []
totals counted (sizes ∷ rest) = ((counted + sum sizes) % u32_mod) ∷ totals 0 rest

-- The last ten of a window and what follows it.
abbrev pub slide : List ℕ → List ℕ → List ℕ
slide win [] = win
slide win (t ∷ ts) = slide (drop 1 win ++ (t ∷ [])) ts

count_lem :
    (ns : List ℕ) (o : WifiObject)
    → o.bw_current < u32_mod
    → count ns o ≡ record o { bw_current = (o.bw_current + sum ns) % u32_mod }
count_lem [] o h = ap (λ c. record o { bw_current = c }) (omega arith)
count_lem (n ∷ ns) o h =
    count_lem ns (record o { bw_current = add_u32 o.bw_current n }) (omega arith)
    ∙ ap (λ c. record o { bw_current = c }) (omega arith)

-- What one object is behind some periods: a meter, whose window slid over their totals.
abbrev pub Slid : WifiObject → WifiObject → List (List ℕ) → Type 0
Slid o o' sizes = IsMeter o' × (window o' ≡ slide (window o) (totals o.bw_current sizes))

abbrev pub timed_out : List (List ℕ × List ℕ) → List Period
timed_out [] = []
timed_out ((s, r) ∷ rest) =
    record { sent_sizes = s; received_sizes = r; end = wait_failed etimedout } ∷ timed_out rest

abbrev pub lefts : List (List ℕ × List ℕ) → List (List ℕ)
lefts [] = []
lefts ((s, r) ∷ rest) = s ∷ lefts rest

abbrev pub rights : List (List ℕ × List ℕ) → List (List ℕ)
rights [] = []
rights ((s, r) ∷ rest) = r ∷ rights rest

-- A counted period and its round.
round :
    (sizes : List ℕ) (o : WifiObject)
    → IsMeter o
    → o.bw_current < u32_mod
    → (o' : WifiObject) × (progress (count sizes o) ≡ some o')
      × IsMeter o'
      × (o'.bw_current ≡ 0)
      × (window o' ≡ drop 1 (window o) ++ (((o.bw_current + sum sizes) % u32_mod) ∷ []))
round sizes o v h = rw (count_lem sizes o h) (
    progress-window (record o { bw_current = (o.bw_current + sum sizes) % u32_mod })
      (record { whole = v.whole; inside = v.inside }))

bandwidth_loop-Slid :
    (ws : List (List ℕ × List ℕ)) (s r : WifiObject)
    → IsMeter s
    → IsMeter r
    → s.bw_current < u32_mod
    → r.bw_current < u32_mod
    → (s' r' : WifiObject) × (bandwidth_loop (timed_out ws) s r ≡ some (s', r'))
      × Slid s s' (lefts ws)
      × Slid r r' (rights ws)
unfolding bandwidth_loop
bandwidth_loop-Slid [] s r vs vr hs hr = (s, r, refl, (vs, refl), (vr, refl))
bandwidth_loop-Slid ((a, b) ∷ ws) s r vs vr hs hr =
    let (s1, ran_s, vs1, zero_s, win_s) = round a s vs hs in
    let (r1, ran_r, vr1, zero_r, win_r) = round b r vr hr in
    let (s', r', ran, (vs', slid_s), (vr', slid_r)) =
      bandwidth_loop-Slid ws s1 r1 vs1 vr1 (omega arith) (omega arith) in
    (
      s',
      r',
      rw (ran_s, ran_r) ran,
      (vs', slid_s ∙ rw (zero_s, win_s) refl),
      (vr', slid_r ∙ rw (zero_r, win_r) refl),
    )

-- The average of a meter is that of its window.
sum_elements_lem :
    (xs : List ℕ) (acc : ℕ) → acc < u32_mod → sum_elements acc xs ≡ (acc + sum xs) % u32_mod
sum_elements_lem [] acc h = omega arith
sum_elements_lem (x ∷ xs) acc h = sum_elements_lem xs (add_u32 acc x) (omega arith) ∙ omega arith

sum-append : (xs ys : List ℕ) → sum (xs ++ ys) ≡ sum xs + sum ys
sum-append [] ys = omega arith
sum-append (x ∷ xs) ys = omega (arith, sum-append xs ys)

sum-rotated : (k : ℕ) (xs : List ℕ) → sum (drop k xs) + sum (take k xs) ≡ sum xs
sum-rotated zero xs = omega arith
sum-rotated (suc k) [] = refl
sum-rotated (suc k) (x ∷ xs) = omega (arith, sum-rotated k xs)

average-window : (o : WifiObject) → average o ≡ sum (window o) % u32_mod / 10
average-window o =
    ap (λ t. t / 10)
      (sum_elements_lem o.bw_elements 0 (omega arith)
        ∙ omega (
          arith,
          sum-append (drop (suc o.bw_index) o.bw_elements) (take (suc o.bw_index) o.bw_elements),
          sum-rotated (suc o.bw_index) o.bw_elements,
        ))

-- What GetBandwidth writes for a window.
abbrev pub mean : List ℕ → ℕ
mean win = sum win % u32_mod / 10

-- On a sender and a receiver with whole rings, the loop of the bandwidth thread never writes out of
-- bounds: after any number of waits that time out, each with the sizes that were counted meanwhile,
-- the rings are whole, and GetBandwidth returns OK and writes, through each pointer that is not
-- NULL, a tenth of the sum of the last ten totals of periods, the sum taken modulo 2^32.
pub get_bandwidth_refines :
    (ws : List (List ℕ × List ℕ)) (m : Manager) (s r : WifiObject) (up down : Bool)
    → IsMeter s
    → IsMeter r
    → s.bw_current < u32_mod
    → r.bw_current < u32_mod
    → (s' r' : WifiObject) × (bandwidth_loop (timed_out ws) s r ≡ some (s', r'))
      × IsMeter s'
      × IsMeter r'
      × (get_bandwidth (some (record m { sender = some s'; receiver = some r' })) up down ≡ (
        ok,
        if up then some (mean (slide (window s) (totals s.bw_current (lefts ws)))) else none,
        if down then some (mean (slide (window r) (totals r.bw_current (rights ws)))) else none,
      ))
unfolding get_bandwidth
get_bandwidth_refines ws m s r up down vs vr hs hr =
    let (s', r', ran, (vs', slid_s), (vr', slid_r)) = bandwidth_loop-Slid ws s r vs vr hs hr in
    (s', r', ran, vs', vr', rw (average-window s', average-window r', slid_s, slid_r) refl)
