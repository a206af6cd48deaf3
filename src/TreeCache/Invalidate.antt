-- ===== src/TreeCache/Invalidate.antt =====
-- libbit/src/index/tree_cache.rs: lookups after `invalidate_path`.
use bit.Prelude.{
  ◌≡◌, refl, sym, ap, ◌∙◌, arith, Bool, true, false, ◌&&◌, Bool-cases, inl, inr, Option, none, some,
  List, [], ◌∷◌, Option-cases,
}
use bit.Path.{BitPath}
use bit.Obj.{same_bytes}
use bit.TreeCache.{
  BitTreeCache, node, Children, no_children, child, children_of, get, put, find_child,
  invalidate_path, is_valid,
}

pub same_bytes_refl : (a : BitPath) → same_bytes a a ≡ true
unfolding same_bytes
same_bytes_refl [] = refl
same_bytes_refl (x ∷ a) = ground (arith, same_bytes_refl a)

pub same_bytes_inv : (a b : BitPath) → same_bytes a b ≡ true → a ≡ b
unfolding same_bytes
same_bytes_inv [] [] h = refl
same_bytes_inv [] (y ∷ b) h = cc
same_bytes_inv (x ∷ a) [] h = cc
same_bytes_inv (x ∷ a) (y ∷ b) h = ground (arith, same_bytes_inv a b)

get_hit :
    (k name : BitPath) (c : BitTreeCache) (others : Children)
    → same_bytes k name ≡ true
    → get k (child name c others) ≡ some c
unfolding get
get_hit k name c others h = rw (h, get) refl

get_miss :
    (k name : BitPath) (c : BitTreeCache) (others : Children)
    → same_bytes k name ≡ false
    → get k (child name c others) ≡ get k others
unfolding get
get_miss k name c others h = rw (h, get) refl

put_hit :
    (k name : BitPath) (new c : BitTreeCache) (others : Children)
    → same_bytes k name ≡ true
    → put k new (child name c others) ≡ child name new others
unfolding put
put_hit k name new c others h = rw (h, put) refl

put_miss :
    (k name : BitPath) (new c : BitTreeCache) (others : Children)
    → same_bytes k name ≡ false
    → put k new (child name c others) ≡ child name c (put k new others)
unfolding put
put_miss k name new c others h = rw (h, put) refl

get-put_same :
    (k : BitPath) (new : BitTreeCache) (kids : Children) {c : BitTreeCache}
    → get k kids ≡ some c
    → get k (put k new kids) ≡ some new
get-put_same k new no_children h = absurd (unfold get in cc)
get-put_same k new (child name c others) h = elim (Bool-cases (same_bytes k name)) [
  | inl t ↦ rw (put_hit k name new c others t) (get_hit k name new others t)
  | inr f ↦
      rw (put_miss k name new c others f)
        (get_miss k name c _ f ∙ get-put_same k new others (sym (get_miss k name c others f) ∙ h))
]

get-put_other :
    (j k : BitPath) (new : BitTreeCache) (kids : Children)
    → same_bytes j k ≡ false
    → get j (put k new kids) ≡ get j kids
get-put_other j k new no_children h = unfold put in refl
get-put_other j k new (child name c others) h = elim (Bool-cases (same_bytes k name)) [
  | inl t ↦ rw (put_hit k name new c others t) (
      get_miss j name new others (rw (same_bytes_inv k name t) at h)
      ∙ sym (get_miss j name c others (rw (same_bytes_inv k name t) at h)))
  | inr f ↦ rw (put_miss k name new c others f) (elim (Bool-cases (same_bytes j name)) [
    | inl t ↦ get_hit j name c _ t ∙ sym (get_hit j name c others t)
    | inr g ↦
        get_miss j name c _ g ∙ get-put_other j k new others h ∙ sym (get_miss j name c others g)
  ])
]

-- A list of components is the first part of another.
unfoldable pub is_prefix : List BitPath → List BitPath → Bool
is_prefix [] path = true
is_prefix (name ∷ names) [] = false
is_prefix (name ∷ names) (p ∷ path) = same_bytes name p && is_prefix names path

-- What stands under a name after the first component of a path.
under :
    (name : BitPath) (names : List BitPath) (cache : BitTreeCache) {o : Option BitTreeCache}
    → get name (children_of cache) ≡ o
    → find_child (name ∷ names) cache ≡ elim o [ none ↦ none | some c ↦ find_child names c ]
unfolding find_child
under name names cache h = rw (h, find_child) refl

kids_absent :
    (p : BitPath) (path : List BitPath) (cache : BitTreeCache)
    → get p (children_of cache) ≡ none
    → children_of (invalidate_path (p ∷ path) cache) ≡ children_of cache
unfolding invalidate_path
kids_absent p path (node q oid count kids) h = rw h refl

kids_present :
    (p : BitPath) (path : List BitPath) (cache : BitTreeCache) {c : BitTreeCache}
    → get p (children_of cache) ≡ some c
    → children_of (invalidate_path (p ∷ path) cache)
      ≡ put p (invalidate_path path c) (children_of cache)
unfolding invalidate_path
kids_present p path (node q oid count kids) h = rw h refl

-- The first cache on the way.
top_invalid :
    (path : List BitPath) (cache : BitTreeCache) → is_valid (invalidate_path path cache) ≡ false
unfolding is_valid invalidate_path
top_invalid [] (node q oid count kids) = refl
top_invalid (p ∷ path) (node q oid count kids) = refl

-- What is found under the first component of the path afterwards.
step_on :
    (p : BitPath) (names path : List BitPath) (cache c : BitTreeCache)
    → get p (children_of cache) ≡ some c
    → find_child (p ∷ names) (invalidate_path (p ∷ path) cache)
      ≡ find_child names (invalidate_path path c)
step_on p names path cache c h = under p names (invalidate_path (p ∷ path) cache) (
    ap (get p) (kids_present p path cache h)
    ∙ get-put_same p (invalidate_path path c) (children_of cache) h)

step_absent :
    (p : BitPath) (names path : List BitPath) (cache : BitTreeCache)
    → get p (children_of cache) ≡ none
    → find_child (p ∷ names) (invalidate_path (p ∷ path) cache) ≡ none
step_absent p names path cache h =
    under p names (invalidate_path (p ∷ path) cache) (ap (get p) (kids_absent p path cache h) ∙ h)

none-ne-some : {A : Type 0} {a : A} → none ≡ some a → ⊥
none-ne-some h = cc

unwrap_some : {A : Type 0} {a b : A} → some a ≡ some b → a ≡ b
unwrap_some {a = a} {b = b} h = cc

found_here : (cache : BitTreeCache) {c : BitTreeCache} → find_child [] cache ≡ some c → cache ≡ c
unfolding find_child
found_here cache h = unwrap_some h

and_inv : (a b : Bool) → (a && b) ≡ true → (a ≡ true) × (b ≡ true)
and_inv true b h = (refl, h)
and_inv false b h = cc

prefix_inv :
    (name p : BitPath) (names path : List BitPath)
    → is_prefix (name ∷ names) (p ∷ path) ≡ true
    → (same_bytes name p ≡ true) × (is_prefix names path ≡ true)
unfolding is_prefix
prefix_inv name p names path h = and_inv (same_bytes name p) (is_prefix names path) h

not_prefix :
    (name p : BitPath) (names path : List BitPath)
    → is_prefix (name ∷ names) (p ∷ path) ≡ false
    → same_bytes name p ≡ true
    → is_prefix names path ≡ false
unfolding is_prefix
not_prefix name p names path h t = rw (t, ◌&&◌) at h

-- Other names find what they found, since no child of theirs is replaced.
step_off :
    (name p : BitPath) (path : List BitPath) (cache : BitTreeCache)
    → same_bytes name p ≡ false
    → get name (children_of (invalidate_path (p ∷ path) cache)) ≡ get name (children_of cache)
step_off name p path cache f = elim (Option-cases (get p (children_of cache))) [
  | inl e ↦ ap (get name) (kids_absent p path cache e)
  | inr (c, e) ↦
      ap (get name) (kids_present p path cache e)
      ∙ get-put_other name p (invalidate_path path c) (children_of cache) f
]

first_off : (cache : BitTreeCache) → children_of (invalidate_path [] cache) ≡ children_of cache
unfolding invalidate_path
first_off (node q oid count kids) = refl

-- Whatever is found on the way to the invalidated path is invalid.
pub find_child-invalidate_path_on :
    (names path : List BitPath) (cache : BitTreeCache) {c : BitTreeCache}
    → is_prefix names path ≡ true
    → find_child names (invalidate_path path cache) ≡ some c
    → is_valid c ≡ false
find_child-invalidate_path_on [] path cache on h = rw (found_here _ h) at (top_invalid path cache)
find_child-invalidate_path_on (name ∷ names) [] cache on h = absurd (unfold is_prefix in cc)
find_child-invalidate_path_on (name ∷ names) (p ∷ path) cache on h =
    let (same, within) = prefix_inv name p names path on in
    let h' = rw (same_bytes_inv name p same) at h in
    elim (Option-cases (get p (children_of cache))) [
      | inl e ↦ absurd (none-ne-some (sym (step_absent p names path cache e) ∙ h'))
      | inr (c', e) ↦
          find_child-invalidate_path_on names path c' within
            (sym (step_on p names path cache c' e) ∙ h')
    ]

-- A cache whose names do not lead to the invalidated path is the same as before.
pub find_child-invalidate_path_off :
    (names path : List BitPath) (cache : BitTreeCache)
    → is_prefix names path ≡ false
    → find_child names (invalidate_path path cache) ≡ find_child names cache
find_child-invalidate_path_off [] path cache off = absurd (unfold is_prefix in cc)
find_child-invalidate_path_off (name ∷ names) [] cache off =
    under name names (invalidate_path [] cache) (ap (get name) (first_off cache))
    ∙ sym (under name names cache refl)
find_child-invalidate_path_off (name ∷ names) (p ∷ path) cache off =
    elim (Bool-cases (same_bytes name p)) [
      | inl t ↦ rw (same_bytes_inv name p t) (elim (Option-cases (get p (children_of cache))) [
        | inl e ↦ step_absent p names path cache e ∙ sym (under p names cache e)
        | inr (c, e) ↦
            step_on p names path cache c e
            ∙ find_child-invalidate_path_off names path c (not_prefix name p names path off t)
            ∙ sym (under p names cache e)
      ])
      | inr f ↦
          under name names (invalidate_path (p ∷ path) cache) (step_off name p path cache f)
          ∙ sym (under name names cache refl)
    ]
