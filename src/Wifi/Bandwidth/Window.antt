-- ===== src/Wifi/Bandwidth/Window.antt =====
-- The rings of the bandwidth measure, and the totals that they hold.
use lib_arnetwork_al.Prelude.{
  ℕ, zero, suc, ◌+◌, ◌%◌, ◌<◌, ◌≡◌, ◌⊎◌, inl, inr, refl, sym, ap, ◌∙◌, some, List, [], ◌∷◌, ◌++◌,
  append_assoc, arith, length, set, take, drop, length-set, ltb-true,
}
use lib_arnetwork_al.Wifi.{WifiObject}
use lib_arnetwork_al.Wifi.Bandwidth.{bw_nb_elems, progress}

-- The ring is whole, and the index in it.
pub record IsMeter (o : WifiObject) : Type 0 where
  pub whole : length o.bw_elements ≡ bw_nb_elems
  pub inside : o.bw_index < bw_nb_elems

-- The ring from its oldest element on.
abbrev pub window : WifiObject → List ℕ
window o = drop (suc o.bw_index) o.bw_elements ++ take (suc o.bw_index) o.bw_elements

-- A list of which the last member taken is written.
set-last :
    (xs : List ℕ) (i c : ℕ)
    → i < length xs
    → (take (suc i) (set xs i c) ≡ take i xs ++ (c ∷ []))
      × (drop (suc i) (set xs i c) ≡ drop (suc i) xs)
set-last [] i c h = absurd (omega arith)
set-last (x ∷ xs) zero c h = (refl, refl)
set-last (x ∷ xs) (suc i) c h =
    let (before, behind) = set-last xs i c (omega arith) in (ap (λ r. x ∷ r) before, behind)

-- The oldest member gone.
drop-rotated :
    (xs : List ℕ) (i : ℕ) (ys : List ℕ)
    → i < length xs
    → drop 1 (drop i xs ++ ys) ≡ drop (suc i) xs ++ ys
drop-rotated [] i ys h = absurd (omega arith)
drop-rotated (x ∷ xs) zero ys h = refl
drop-rotated (x ∷ xs) (suc i) ys h = drop-rotated xs i ys (omega arith)

take-all : (n : ℕ) (xs : List ℕ) → n ≡ length xs → (take n xs ≡ xs) × (drop n xs ≡ [])
take-all zero [] h = (refl, refl)
take-all zero (x ∷ xs) h = absurd (omega arith)
take-all (suc n) [] h = absurd (omega arith)
take-all (suc n) (x ∷ xs) h =
    let (whole, none_left) = take-all n xs (omega arith) in (ap (λ r. x ∷ r) whole, none_left)

-- A write behind index `i` of the ring, seen from the oldest member: within the list, and at its
-- start.
window-next :
    (xs : List ℕ) (i c : ℕ)
    → suc i < length xs
    → drop (suc (suc i)) (set xs (suc i) c) ++ take (suc (suc i)) (set xs (suc i) c)
      ≡ drop 1 (drop (suc i) xs ++ take (suc i) xs) ++ (c ∷ [])
window-next xs i c h =
    let (before, behind) = set-last xs (suc i) c h in
    rw (before, behind, drop-rotated xs (suc i) (take (suc i) xs) h)
      (sym (append_assoc (drop (suc (suc i)) xs) (take (suc i) xs) (c ∷ [])))

window-first :
    (xs : List ℕ) (i c : ℕ)
    → suc i ≡ length xs
    → drop 1 (set xs 0 c) ++ take 1 (set xs 0 c)
      ≡ drop 1 (drop (suc i) xs ++ take (suc i) xs) ++ (c ∷ [])
window-first [] i c h = absurd (omega arith)
window-first (x ∷ xs) i c h =
    let (whole, none_left) = take-all (suc i) (x ∷ xs) h in rw (whole, none_left) refl

-- The object behind a round that writes at `j`.
abbrev at_index : ℕ → WifiObject → WifiObject
at_index j o = record o {
  bw_index = j;
  bw_elements = set o.bw_elements j o.bw_current;
  bw_current = 0;
}

module _ (o : WifiObject) (v : IsMeter o) where
  next_index :
      ((((o.bw_index + 1) % 10) ≡ 0) × (suc o.bw_index ≡ length o.bw_elements))
      ⊎ ((((o.bw_index + 1) % 10) ≡ suc o.bw_index) × (suc o.bw_index < length o.bw_elements))
  next_index = ground (arith, v)

  progress-at_index : progress o ≡ some (at_index ((o.bw_index + 1) % 10) o)
  unfolding progress
  progress-at_index =
      rw (ltb-true ((o.bw_index + 1) % 10) (length o.bw_elements) (omega (arith, v))) refl

  window-at_index :
      window (at_index ((o.bw_index + 1) % 10) o) ≡ drop 1 (window o) ++ (o.bw_current ∷ [])
  window-at_index = elim next_index [
    | inl (e, h) ↦ rw (e) (window-first o.bw_elements o.bw_index o.bw_current h)
    | inr (e, h) ↦ rw (e) (window-next o.bw_elements o.bw_index o.bw_current h)
  ]

  -- A round puts the counter behind the window, and the oldest total falls out.
  pub progress-window :
      (o' : WifiObject) × (progress o ≡ some o')
      × IsMeter o'
      × (o'.bw_current ≡ 0)
      × (window o' ≡ drop 1 (window o) ++ (o.bw_current ∷ []))
  progress-window = (
    at_index ((o.bw_index + 1) % 10) o,
    progress-at_index,
    record {
      whole = length-set o.bw_elements ((o.bw_index + 1) % 10) o.bw_current ∙ v.whole;
      inside = omega arith;
    },
    refl,
    window-at_index,
  )
