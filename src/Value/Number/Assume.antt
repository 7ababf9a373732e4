-- ===== src/Value/Number/Assume.antt =====
-- `number_assume` of src/value/value.c: taking a number to be true or false.
use xr.Prelude.{◌+◌, ◌<◌, ◌^◌, ◌≡◌, ◌≢◌, refl, ◌↔◌, inl, Bool, true, false, [], ◌∷◌, arith, ok}
use xr.Prelude.Int.{ℤ, pos, pos_part, neg_part, ◌<ℤ◌}
use xr.Value.Number.{
  constant, RangeArr, ranges, number_range_create, number_range_canbe, number_range_arr_canbe,
  number_assume, number_range_arr_single_create, number_range_arr_ne_create,
  number_range_assumed_value, number_value_equal, number_with_range_create,
}
use xr.Value.Number.Sets.{InRanges}
use xr.Value.Number.Laws.{
  AllProper, arr_canbe_false, arr_canbe_true, single_arr, ne_arr, difference_lem,
}

-- Assuming a number false answers, and finds this possible exactly when the number may be 0. Then
-- the number is 0 afterwards; otherwise it stays as it was.
pub number_assume-false :
    (rs : RangeArr)
    → (rs' : RangeArr) × (b : Bool) × (number_assume (ranges rs) false
        ≡ ok (record { number = ranges rs'; possible = b }))
      × ((b ≡ true) ↔ InRanges (pos 0) rs)
      × (b ≡ true → (z : ℤ) → InRanges z rs' ↔ (InRanges z rs × (z ≡ pos 0)))
      × (b ≡ false → rs' ≡ rs)
unfolding number_assume number_range_assumed_value
number_assume-false rs =
    let (b, runs, means) = arr_canbe_false rs in
    let (rs', makes, stands) = single_arr (pos 0) (omega arith) in
    split b runs means rs' makes stands
  where
    split :
        (b : Bool)
        → number_range_arr_canbe rs false ≡ ok b
        → ((b ≡ true) ↔ InRanges (pos 0) rs)
        → (rs' : RangeArr) → number_range_arr_single_create (pos 0) ≡ ok rs'
        → ((z : ℤ) → InRanges z rs' ↔ (z ≡ pos 0))
        → (new : RangeArr) × (b : Bool) × (number_assume (ranges rs) false
            ≡ ok (record { number = ranges new; possible = b }))
          × ((b ≡ true) ↔ InRanges (pos 0) rs)
          × (b ≡ true → (z : ℤ) → InRanges z new ↔ (InRanges z rs × (z ≡ pos 0)))
          × (b ≡ false → new ≡ rs)
    split true runs means rs' makes stands = (
      rs',
      true,
      rw (runs, makes),
      means,
      (λ h z.
          ((λ i. let e = (stands z).0 i in (rw e (means.0 refl), e)), λ (i, e). (stands z).1 e)),
      λ h. cc,
    )
    split false runs means rs' makes stands = (rs, false, rw runs, means, (λ h. cc), λ h. refl)

-- Assuming a number of proper ranges true answers. If this is found possible, some integer other
-- than 0 was possible before, and afterwards exactly the integers other than 0 are possible; otherwise the number stays as it was.
pub number_assume-true :
    (rs : RangeArr)
    → AllProper rs
    → (rs' : RangeArr) × (b : Bool) × (number_assume (ranges rs) true
        ≡ ok (record { number = ranges rs'; possible = b }))
      × (b ≡ true → (z : ℤ) × (z ≢ pos 0) × InRanges z rs)
      × (b ≡ true → (z : ℤ) → InRanges z rs' ↔ (z ≢ pos 0))
      × (b ≡ false → rs' ≡ rs)
unfolding number_assume number_range_assumed_value
number_assume-true rs proper =
    let (b, runs, means) = arr_canbe_true rs proper in
    let (rs', makes, stands) = ne_arr (pos 0) (omega arith) in split b runs means rs' makes stands
  where
    split :
        (b : Bool)
        → number_range_arr_canbe rs true ≡ ok b
        → (b ≡ true → (z : ℤ) × (z ≢ pos 0) × InRanges z rs)
        → (rs' : RangeArr) → number_range_arr_ne_create (pos 0) ≡ ok rs'
        → ((z : ℤ) → InRanges z rs' ↔ (z ≢ pos 0))
        → (new : RangeArr) × (b : Bool) × (number_assume (ranges rs) true
            ≡ ok (record { number = ranges new; possible = b }))
          × (b ≡ true → (z : ℤ) × (z ≢ pos 0) × InRanges z rs)
          × (b ≡ true → (z : ℤ) → InRanges z new ↔ (z ≢ pos 0))
          × (b ≡ false → new ≡ rs)
    split true runs means rs' makes stands =
        (rs', true, rw (runs, makes), means, (λ h z. stands z), λ h. cc)
    split false runs means rs' makes stands = (rs, false, rw runs, means, (λ h. cc), λ h. refl)

-- A number that ranges from 0 to any bound above 1 may be 1, yet assuming it true is found
-- impossible.
pub number_assume-true-misses :
    (up : ℤ)
    → pos 1 <ℤ up
    → pos_part up + neg_part up < 2 ^ 30
    → (rs : RangeArr) × (number_with_range_create (pos 0) up ≡ ranges rs)
      × InRanges (pos 1) rs
      × (number_assume (ranges rs) true ≡ ok (record { number = ranges rs; possible = false }))
unfolding number_assume number_with_range_create number_range_arr_canbe number_range_canbe
    number_value_equal
number_assume-true-misses up h m = (
  number_range_create (constant (pos 0)) (constant up) ∷ [],
  refl,
  inl (omega arith, h),
  rw (difference_lem (pos 0) up (omega arith) m) (ground arith),
)
