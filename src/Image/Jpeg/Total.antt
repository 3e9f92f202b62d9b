-- ===== src/Image/Jpeg/Total.antt =====
-- The loop of `jpeg` ends: its fuel, the length of the buffer, is always enough.
use codevo_runner.Prelude.{
  ℕ, zero, suc, ◌≤◌, ◌≡◌, refl, inl, inr, false, ◌&&◌, some, List, [], ◌∷◌, arith, ◌==◌,
  if◌then◌else◌, Bool-cases, length, length-drop,
}
use codevo_runner.Contracts.{Result, unsupported_media, ok, err}
use codevo_runner.Image.{read_u16}
use codevo_runner.Image.Jpeg.{
  finished, go_on, counted_marker, at_marker, after_prefix, start, Scan, Step, skip_data, skip_fill,
  sized_segment, body, loop, jpeg,
}

length-skip_data : (bytes : List ℕ) → length (skip_data bytes) ≤ length bytes
unfolding skip_data
length-skip_data [] = omega arith
length-skip_data (b ∷ bs) = ground (arith, length-skip_data bs)

length-skip_fill : (bytes : List ℕ) → length (skip_fill bytes) ≤ length bytes
unfolding skip_fill
length-skip_fill [] = omega arith
length-skip_fill (b ∷ bs) = ground (arith, length-skip_fill bs)

-- A step that goes on leaves fewer bytes than there were.
abbrev Shrinks : ℕ → Result Step → Type 0
Shrinks n (err e) = Unit
Shrinks n (ok finished) = Unit
Shrinks n (ok (go_on s rest)) = length rest ≤ n

sized-Shrinks :
    (marker : ℕ) (rest : List ℕ) (s : Scan) → Shrinks (length rest) (sized_segment marker rest s)
unfolding sized_segment
sized-Shrinks marker rest s = ground (arith, length-drop (read_u16 0 rest) rest)

counted-Shrinks :
    (left marker : ℕ) (rest : List ℕ) (s : Scan)
    → Shrinks (length rest) (counted_marker left marker rest s)
unfolding counted_marker
counted-Shrinks zero marker rest s = tt
counted-Shrinks (suc left) marker rest s =
    ground (arith, sized-Shrinks marker rest (record s { left = left; scanning = false }))

marker-Shrinks : (rest : List ℕ) (s : Scan) (n : ℕ) → length rest ≤ n → Shrinks n (at_marker rest s)
unfolding at_marker
marker-Shrinks [] s n h = tt
marker-Shrinks (m ∷ rest) s n h = elim (Bool-cases (m == 0 && s.scanning)) [
  | inl e ↦ rw e (omega arith)
  | inr e ↦ rw e (weaken (counted_marker s.left m rest s) (counted-Shrinks s.left m rest s))
]
  where
    weaken : (st : Result Step) → Shrinks (length rest) st → Shrinks n st
    weaken (err e) k = tt
    weaken (ok finished) k = tt
    weaken (ok (go_on s' r)) k = omega (arith, k)

prefix-Shrinks :
    (rest : List ℕ) (s : Scan) (n : ℕ) → length rest ≤ suc n → Shrinks n (after_prefix rest s)
unfolding after_prefix
prefix-Shrinks [] s n h = tt
prefix-Shrinks (b ∷ bs) s n h = elim (Bool-cases (b == 0xFF)) [
  | inl e ↦ rw e (marker-Shrinks (skip_fill bs) s n (omega (arith, length-skip_fill bs)))
  | inr e ↦ rw e tt
]

body-Shrinks : (b : ℕ) (bs : List ℕ) (s : Scan) → Shrinks (length bs) (body (b ∷ bs) s)
unfolding body
body-Shrinks b bs s =
    prefix-Shrinks (if s.scanning then skip_data (b ∷ bs) else b ∷ bs) s (length bs)
      (elim (Bool-cases s.scanning) [
        | inl e ↦ rw e (length-skip_data (b ∷ bs))
        | inr e ↦ rw e (omega arith)
      ])

loop_total :
    (fuel : ℕ) (rest : List ℕ) (s : Scan)
    → length rest ≤ fuel
    → (r : Result (Unit {0})) × (loop fuel rest s ≡ some r)
unfolding loop
loop_total fuel [] s h = (err unsupported_media, refl)
loop_total zero (b ∷ bs) s h = absurd (omega arith)
loop_total (suc fuel) (b ∷ bs) s h =
    go (body (b ∷ bs) s) refl (body-Shrinks b bs s) (λ s' r. loop_total fuel r s')
  where
    go :
        (st : Result Step)
        → body (b ∷ bs) s ≡ st
        → Shrinks (length bs) st
        → ((s' : Scan) (r : List ℕ)
            → length r ≤ fuel
            → (k : Result (Unit {0})) × (loop fuel r s' ≡ some k))
        → (k : Result (Unit {0})) × (loop (suc fuel) (b ∷ bs) s ≡ some k)
    go (err e) q k ih = (err e, rw (q, loop))
    go (ok finished) q k ih = (ok tt, rw (q, loop))
    go (ok (go_on s' r)) q k ih = let (v, p) = ih s' r (omega (arith, k)) in (v, rw (q, loop) p)

-- `jpeg` answers for every buffer: it accepts it or fails with an error, and never runs on.
pub jpeg_total : (bytes : List ℕ) → (r : Result (Unit {0})) × (jpeg bytes ≡ some r)
unfolding jpeg
jpeg_total [] = (err unsupported_media, refl)
jpeg_total (a ∷ []) = (err unsupported_media, refl)
jpeg_total (a ∷ b ∷ rest) = elim (Bool-cases (a == 0xFF && b == 0xD8)) [
  | inl e ↦ rw e (loop_total (length rest) rest start (omega arith))
  | inr e ↦ (err unsupported_media, rw e)
]
