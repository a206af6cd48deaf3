-- ===== src/Checkout/Loops.antt =====
-- libbit/src/checkout.rs and libbit/src/diff.rs: the two loops over a comparison of trees end.
use bit.Prelude.{ℕ, zero, suc, ◌+◌, ◌<◌, inl, inr, arith, true, false, Bool-cases, some, none}
use bit.Result.{ok, ◌>>=◌}
use bit.Index.{BitIndexEntry}
use bit.Iter.{Items, size}
use bit.Diff.Trees.{Modified, Round, tree_next, differ_loop, is_difference}
use bit.Diff.Trees.Ends.{Ends, Ends-bind, Shrinks, tree_next_ends}
use bit.Checkout.{CheckoutStrategy, CheckoutCtxt}
use bit.Checkout.Table.{reset_entry, reset_loop}
use bit.Checkout.Ends.{Quiet, Other, EndsQuiet, reset_entry_ends}

module _ (opts : CheckoutStrategy) (modified : Modified)
    (fine : (e : BitIndexEntry) → Ends (Other opts) (λ r. Unit {0}) (modified e)) where
  abbrev pub LoopEnds : ℕ → Type 0
  LoopEnds fuel =
      (olds news : Items) (c : CheckoutCtxt)
      → size olds + size news < fuel
      → Quiet opts c
      → EndsQuiet opts (reset_loop modified fuel olds news c)

  reset_round :
      (n fuel : ℕ) (r : Round) (c : CheckoutCtxt)
      → LoopEnds fuel
      → n < suc fuel
      → Quiet opts c
      → Shrinks n r
      → EndsQuiet opts (elim r.0 [
        | none ↦ ok c
        | some e ↦ reset_entry e c >>= λ d. reset_loop modified fuel r.1 r.2 d
      ])
  reset_round n fuel (none, olds, news) c again lt h less = h
  reset_round n fuel (some e, olds, news) c again lt h less =
      Ends-bind (Other opts) (Quiet opts) (Quiet opts) (reset_entry e c) _
        (reset_entry_ends opts e c h) (λ d k. again olds news d (omega (arith, lt, less)) k)

  pub reset_loop-LoopEnds : (fuel : ℕ) → LoopEnds fuel
  unfolding reset_loop
  reset_loop-LoopEnds zero olds news c lt h = absurd (omega (arith, lt))
  reset_loop-LoopEnds (suc fuel) olds news c lt h =
      Ends-bind (Other opts) (Shrinks (size olds + size news)) (Quiet opts)
        (tree_next true true modified olds news) _
        (tree_next_ends (Other opts) modified fine true true olds news)
        (λ r k. reset_round (size olds + size news) fuel r c (reset_loop-LoopEnds fuel) lt h k)

  abbrev pub DifferEnds : ℕ → Type 0
  DifferEnds fuel =
      (olds news : Items)
      → size olds + size news < fuel
      → Ends (Other opts) (λ b. Unit {0}) (differ_loop true modified fuel olds news)

  differ_round :
      (n fuel : ℕ) (r : Round)
      → DifferEnds fuel
      → n < suc fuel
      → Shrinks n r
      → Ends
          (Other opts)
          (λ b. Unit {0})
          (elim r.0 [
            | none ↦ ok false
            | some e ↦ elim (is_difference e) [
              | true ↦ ok true
              | false ↦ differ_loop true modified fuel r.1 r.2
            ]
          ])
  differ_round n fuel (none, olds, news) again lt less = tt
  differ_round n fuel (some e, olds, news) again lt less = elim (Bool-cases (is_difference e)) [
    | inl t ↦ rw t tt
    | inr t ↦ rw t (again olds news (omega (arith, lt, less)))
  ]

  pub differ_loop_ends : (fuel : ℕ) → DifferEnds fuel
  unfolding differ_loop
  differ_loop_ends zero olds news lt = absurd (omega (arith, lt))
  differ_loop_ends (suc fuel) olds news lt =
      Ends-bind (Other opts) (Shrinks (size olds + size news)) (λ b. Unit {0})
        (tree_next true false modified olds news) _
        (tree_next_ends (Other opts) modified fine true false olds news)
        (λ r k. differ_round (size olds + size news) fuel r (differ_loop_ends fuel) lt k)
