-- ===== src/Delta/Expand.antt =====
-- libbit/src/delta.rs: a description of the target that does not run the operations, for `expand`.
use bit.Prelude.{ℕ, ◌+◌, ◌≤◌, ◌≡◌, refl, sym, ap, ◌∙◌, ◌↔◌, arith, leb, ◌==◌, ==_iff, inl, inr}
use bit.Prelude.{List, [], ◌∷◌, ◌++◌, length, take, drop, append_assoc, append-nil, length-append}
use bit.Prelude.{
  take_append, drop_append, take-append-drop, length-take, length-drop, Bool-cases, true,
}
use mathlib.Core.Path.{subst}
use bit.Result.{bind_inv, ensure_inv, ok, panic, bad_source_size, bad_target_size}
use bit.Delta.{DeltaOp, copy, insert, Delta}
use bit.Delta.Apply.{op_slice, expand_ops, expand}

-- `target` is the pieces that the operations name, one behind the other.
pub data Builds (source : List ℕ) : List DeltaOp → List ℕ → Type 0 where
  done : Builds source [] []
  copied :
      {offset size : ℕ} (front piece back : List ℕ) {ops : List DeltaOp} {target : List ℕ}
      → length front ≡ offset
      → length piece ≡ size
      → source ≡ front ++ (piece ++ back)
      → Builds source ops target
      → Builds source (copy offset size ∷ ops) (piece ++ target)
  inserted :
      (piece : List ℕ) {ops : List DeltaOp} {target : List ℕ}
      → Builds source ops target
      → Builds source (insert piece ∷ ops) (piece ++ target)

panic_ne : {A : Type 0} {a : A} → panic ≡ ok a → ⊥
panic_ne h = cc

le→leb : (a b : ℕ) → a ≤ b → leb a b ≡ true
le→leb a b h = ground arith

leb→le : (a b : ℕ) → leb a b ≡ true → a ≤ b
leb→le a b h = ground arith

-- A piece that stands in the source is what its slice reads.
op_slice-copy :
    (source front piece back : List ℕ)
    → source ≡ front ++ (piece ++ back)
    → op_slice source (copy (length front) (length piece)) ≡ ok piece
unfolding op_slice
op_slice-copy source front piece back e =
    rw (e, le→leb _ (length (front ++ (piece ++ back))) within, drop_append front (piece ++ back))
      (ap ok (take_append piece back))
  where
    within : length front + length piece ≤ length (front ++ (piece ++ back))
    within = omega (arith, length-append front (piece ++ back), length-append piece back)

op_slice-insert : (source piece : List ℕ) → op_slice source (insert piece) ≡ ok piece
unfolding op_slice
op_slice-insert source piece = refl

expand_ops-Builds :
    (source : List ℕ) {ops : List DeltaOp} {target : List ℕ}
    → Builds source ops target
    → (expanded : List ℕ) → expand_ops source ops expanded ≡ ok (expanded ++ target)
unfolding expand_ops
expand_ops-Builds source done expanded = ap ok (sym (append-nil expanded))
expand_ops-Builds source (copied front piece back {target = target} eo es e b) expanded =
    rw (← eo, ← es, op_slice-copy source front piece back e)
      (expand_ops-Builds source b (expanded ++ piece) ∙ ap ok (append_assoc expanded piece target))
expand_ops-Builds source (inserted piece {target = target} b) expanded =
    rw (op_slice-insert source piece)
      (expand_ops-Builds source b (expanded ++ piece) ∙ ap ok (append_assoc expanded piece target))

-- A slice in range names a piece of the source.
slice_piece :
    (source : List ℕ) (offset size : ℕ) {ops : List DeltaOp} {target : List ℕ}
    → offset + size ≤ length source
    → Builds source ops target
    → Builds source (copy offset size ∷ ops) (take size (drop offset source) ++ target)
slice_piece source offset size h b =
    copied (take offset source) (take size (drop offset source)) (drop size (drop offset source))
      (omega (arith, length-take offset source))
      (omega (arith, length-take size (drop offset source), length-drop offset source))
      (sym (rw (take-append-drop size (drop offset source)) (take-append-drop offset source))) b

expand_ops_inv :
    (source : List ℕ) (ops : List DeltaOp) (expanded : List ℕ) {result : List ℕ}
    → expand_ops source ops expanded ≡ ok result
    → (target : List ℕ) × Builds source ops target × (result ≡ expanded ++ target)
unfolding expand_ops op_slice
expand_ops_inv source [] expanded h = ([], done, ground (arith, append-nil expanded))
expand_ops_inv source (copy offset size ∷ ops) expanded {result} h =
    elim (Bool-cases (leb (offset + size) (length source))) [
      | inl fits ↦
          (let piece = take size (drop offset source) in
            let (target, b, e) = expand_ops_inv source ops (expanded ++ piece) (rw fits at h) in
            (
              piece ++ target,
              slice_piece source offset size (leb→le _ _ fits) b,
              e ∙ append_assoc expanded piece target,
            ))
      | inr out ↦ absurd (panic_ne (rw out at h))
    ]
expand_ops_inv source (insert piece ∷ ops) expanded h =
    let (target, b, e) = expand_ops_inv source ops (expanded ++ piece) h in
    (piece ++ target, inserted piece b, e ∙ append_assoc expanded piece target)

-- `expand` returns a target exactly when the source has the size that the delta names, the target is
-- the pieces that the operations name, and it has the size that the delta names.
pub expand_iff :
    (d : Delta) (source target : List ℕ)
    → (expand d source ≡ ok target) ↔ (
        (d.source_size ≡ length source)
        × Builds source d.ops target
        × (d.target_size ≡ length target))
unfolding expand
expand_iff d source target = (to, from)
  where
    to :
        expand d source ≡ ok target
        → (d.source_size ≡ length source)
          × Builds source d.ops target
          × (d.target_size ≡ length target)
    to h =
        let (es, h₁) = ensure_inv (d.source_size == length source) bad_source_size _ h in
        let (t, eb, h₂) = bind_inv (expand_ops source d.ops []) _ h₁ in
        let (et, h₃) = ensure_inv (d.target_size == length t) bad_target_size _ h₂ in
        let (t', b, e) = expand_ops_inv source d.ops [] eb in
        let same : t' ≡ target = cc (e, h₃) in
        (
          (==_iff _ _).0 es,
          subst (Builds source d.ops) same b,
          (==_iff _ _).0 et ∙ ap length (cc (e, same)),
        )

    from :
        (d.source_size ≡ length source)
          × Builds source d.ops target
          × (d.target_size ≡ length target)
        → expand d source ≡ ok target
    from (es, b, et) = rw ((==_iff _ _).1 es, expand_ops-Builds source b [], (==_iff _ _).1 et)
