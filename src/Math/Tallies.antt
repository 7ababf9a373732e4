-- ===== src/Math/Tallies.antt =====
-- `tally` of src/math/math.c returns, and what it returns stands for the expression.
use xr.Prelude.{◌<◌, ◌^◌, ◌≡◌, refl, ap, ◌∙◌, [], arith, ok}
use xr.Prelude.Int.{
  pos, pos_part, neg_part, ◌+ℤ◌, neg, int_laws, as_int_small, to_int_small, one-*ℤ, abs-+ℤ, abs-neg,
}
use xr.Util.Map.{map_create, map_set}
use xr.Math.{
  nat, variable, MathExpr, atom, sum, negated, Tally, tally_of, atom_tally, map_sum, sum_tally,
  neg_tally, tally,
}
use xr.Math.Meaning.{
  eval, total, weight, abs, occurrence_count, magnitude, IsSmall, TallyOf, variables,
}
use xr.Math.TallyLoops.{
  copy_each_lem, add_each_lem, neg_each_lem, negate_all, negate_all-HasDistinctKeys,
  total-negate_all, weight-negate_all, keys-negate_all,
}

sum_TallyOf :
    (e1 e2 : MathExpr) (t1 t2 : Tally)
    → IsSmall (sum e1 e2)
    → TallyOf e1 t1
    → TallyOf e2 t2
    → (t : Tally) × (sum_tally t1 t2 ≡ ok t) × TallyOf (sum e1 e2) t
unfolding sum_tally map_sum eval variables occurrence_count magnitude
sum_TallyOf e1 e2 t1 t2 s o1 o2 =
    let (r, runs, got) = add_each_lem t1.map t2.map (omega (arith, s.few, o1.counts, o2.counts)) in
    let small : abs (t1.num +ℤ t2.num) < 2 ^ 31 =
      omega (arith, abs-+ℤ t1.num t2.num, s.light, o1.number, o2.number) in
    (
      tally_of r (t1.num +ℤ t2.num),
      rw (copy_each_lem t1.map o1.distinct, runs, as_int_small _ small),
      record {
        meaning = λ ρ. omega (
          int_laws,
          ap pos_part (got.meaning ρ),
          ap neg_part (got.meaning ρ),
          ap pos_part (o1.meaning ρ),
          ap neg_part (o1.meaning ρ),
          ap pos_part (o2.meaning ρ),
          ap neg_part (o2.meaning ρ),
        );
        distinct = got.distinct o1.distinct;
        counts = omega (arith, got.counts, o1.counts, o2.counts);
        number = omega (arith, abs-+ℤ t1.num t2.num, o1.number, o2.number);
        keys = got.keys ∙ rw (o1.keys, o2.keys);
      },
    )

neg_TallyOf :
    (e : MathExpr) (t1 : Tally)
    → IsSmall (negated e)
    → TallyOf e t1
    → (t : Tally) × (neg_tally t1 ≡ ok t) × TallyOf (negated e) t
unfolding neg_tally eval variables occurrence_count magnitude
neg_TallyOf e t1 s o =
    let small : abs (neg t1.num) < 2 ^ 31 = omega (arith, abs-neg t1.num, s.light, o.number) in
    (
      tally_of (negate_all t1.map) (neg t1.num),
      rw (neg_each_lem t1.map o.distinct (omega (arith, s.few, o.counts)), as_int_small _ small),
      record {
        meaning = λ ρ.
            rw (total-negate_all ρ t1.map)
              (omega (int_laws, ap pos_part (o.meaning ρ), ap neg_part (o.meaning ρ)));
        distinct = negate_all-HasDistinctKeys t1.map o.distinct;
        counts = omega (arith, weight-negate_all t1.map, o.counts);
        number = omega (arith, abs-neg t1.num, o.number);
        keys = keys-negate_all t1.map ∙ o.keys;
      },
    )

-- On an expression with fewer than 2^31 variables and with naturals that add up to less than 2^31
-- the tally is computed without overflow. Under every assignment of integers to the variables,
-- the counts times the values plus the number are the value of the expression; no variable
-- is counted twice, the keys are the expression's variables; and the counts and the number are within the size of the expression.
pub tally_lem : (e : MathExpr) → IsSmall e → (t : Tally) × (tally e ≡ ok t) × TallyOf e t
unfolding tally atom_tally eval total weight occurrence_count magnitude map_create ◌+ℤ◌ map_set
    variables
tally_lem (atom (nat n)) s = (
  tally_of [] (pos n),
  rw (to_int_small (pos n) (omega (arith, s.light))),
  record {
    meaning = λ ρ. omega int_laws;
    distinct = tt;
    counts = omega arith;
    number = omega arith;
    keys = refl;
  },
)
tally_lem (atom (variable x)) s = (
  _,
  refl,
  record {
    meaning = λ ρ. rw one-*ℤ (omega int_laws);
    distinct = (tt, tt);
    counts = omega arith;
    number = omega arith;
    keys = refl;
  },
)
tally_lem (sum e1 e2) s =
    let (t1, runs1, o1) =
      tally_lem e1 (record { few = omega (arith, s.few); light = omega (arith, s.light) }) in
    let (t2, runs2, o2) =
      tally_lem e2 (record { few = omega (arith, s.few); light = omega (arith, s.light) }) in
    let (t, runs, o) = sum_TallyOf e1 e2 t1 t2 s o1 o2 in (t, rw (runs1, runs2) runs, o)
tally_lem (negated e) s =
    let (t1, runs1, o1) =
      tally_lem e (record { few = omega (arith, s.few); light = omega (arith, s.light) }) in
    let (t, runs, o) = neg_TallyOf e t1 s o1 in (t, rw runs1 runs, o)
