-- ===== src/Digest/Pages.antt =====
-- The pages of `AccountsByPublickey`, whose ends are `(i + 1) + 50`.
use Prim.Native.Nat.{◌/◌}
use mitum_data_blocksign.Prelude.{
  ℕ, suc, ◌+◌, ◌-◌, ◌*◌, ◌≤◌, ◌<◌, leb, length, take, drop, Bool, true, false, ◌&&◌, List, ok,
  panic, ◌≡◌, refl, arith,
}
use mitum_data_blocksign.Mitum.{Outcome}
use mitum_data_blocksign.Digest.Slices.{slice, cap_at, visit_pages, visit_all}

slice_out : {X : Type 0} (s e : ℕ) (xs : List X) → e < s → slice s e xs ≡ panic
unfolding slice
slice_out s e xs h =
    let outside : (leb s e && leb e (length xs)) ≡ false = grind arith in rw outside refl

slice_in :
    {X : Type 0} (s e : ℕ) (xs : List X)
    → s ≤ e
    → e ≤ length xs
    → slice s e xs ≡ ok (take (e - s) (drop s xs))
unfolding slice
slice_in s e xs h l =
    let inside : (leb s e && leb e (length xs)) ≡ true = grind arith in rw inside refl

module _ {X D : Type 0} (visit : List X → D → Outcome (Bool × D))
    (goes_on : (page : List X) (d : D) → (d' : D) × (visit page d ≡ ok (false, d'))) where
  -- A page that is cut right and does not end the loop
  page_passes :
      (k i : ℕ) (xs : List X) (d : D)
      → i * 50 ≤ cap_at (length xs) (i + 1 + 50)
      → (d' : D) × (visit_pages visit (suc k) i xs d ≡ visit_pages visit k (suc i) xs d')
  unfolding visit_pages
  page_passes k i xs d h =
      let page = take (cap_at (length xs) (i + 1 + 50) - i * 50) (drop (i * 50) xs) in
      let (d', e) = goes_on page d in
      (d', rw (slice_in (i * 50) (cap_at (length xs) (i + 1 + 50)) xs h (grind arith), e) refl)

  third_page :
      (k : ℕ) (xs : List X) (d : D) → 100 < length xs → visit_pages visit (suc k) 2 xs d ≡ panic
  unfolding visit_pages
  third_page k xs d h = rw (slice_out 100 (cap_at (length xs) 53) xs (grind arith)) refl

  three_pages :
      (k n : ℕ) (xs : List X) (d : D)
      → n ≡ suc (suc (suc k))
      → 100 < length xs
      → visit_pages visit n 0 xs d ≡ panic
  three_pages k n xs d e h =
      let (d1, first) = page_passes (suc (suc k)) 0 xs d (grind arith) in
      let (d2, second) = page_passes (suc k) 1 xs d1 (grind arith) in
      rw (e, first, second) (third_page k xs d2 h)

  -- More than a hundred addresses make the loop over their pages panic, where no page ends it: the
  -- third page would start after its end.
  pub visit_all-panic : (xs : List X) (d : D) → 100 < length xs → visit_all visit xs d ≡ panic
  unfolding visit_all
  visit_all-panic xs d h =
      three_pages ((length xs + 49) / 50 - 3) ((length xs + 49) / 50) xs d (grind arith) h
