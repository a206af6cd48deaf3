-- ===== src/Pack/Fanout.antt =====
-- libbit/src/pack.rs: the table that an index of a pack starts with, and the buckets read from it.
use bit.Prelude.{
  ℕ, zero, suc, ◌+◌, ◌%◌, ◌^◌, ◌<◌, ◌≤◌, ltb, ◌==◌, ==_iff, ◌≡◌, ◌≢◌, refl, sym, ap, ◌∙◌, inl, inr,
  arith, Bool, Bool-cases, if◌then◌else◌, some, List, [], ◌∷◌, get_elem?, length, replicate,
}
use bit.Result.{ok}
use bit.Io.{Oid}
use bit.Pack.Index.{bump, count_first, running_sums, build_fanout, fanout_at, bucket, fanout_entryc}

-- Every oid has a first byte.
pub data HasFirst : List Oid → Type 0 where
  no_oid : HasFirst []
  one_oid :
      {b : ℕ} {oid : Oid} {oids : List Oid} → b < 256 → HasFirst oids → HasFirst ((b ∷ oid) ∷ oids)

-- How many oids have a first byte that the test holds of.
unfoldable pub firsts : (ℕ → Bool) → List Oid → ℕ
firsts p [] = 0
firsts p ([] ∷ oids) = firsts p oids
firsts p ((b ∷ oid) ∷ oids) = let rest = firsts p oids in if p b then suc rest else rest

-- How many oids have a first byte less than `b`.
abbrev pub below : ℕ → List Oid → ℕ
below b = firsts (λ c. ltb c b)

abbrev at_byte : ℕ → List Oid → ℕ
at_byte b = firsts (λ c. b == c)

firsts_bound : (p : ℕ → Bool) (oids : List Oid) → firsts p oids ≤ length oids
unfolding firsts
firsts_bound p [] = omega arith
firsts_bound p ([] ∷ oids) = omega (arith, firsts_bound p oids)
firsts_bound p ((b ∷ oid) ∷ oids) = let h = firsts_bound p oids in ground arith

below-zero : (oids : List Oid) → below 0 oids ≡ 0
unfolding firsts
below-zero [] = refl
below-zero ([] ∷ oids) = below-zero oids
below-zero ((b ∷ oid) ∷ oids) = let h = below-zero oids in ground arith

below-suc : (n : ℕ) (oids : List Oid) → below (suc n) oids ≡ below n oids + at_byte n oids
unfolding firsts
below-suc n [] = refl
below-suc n ([] ∷ oids) = below-suc n oids
below-suc n ((b ∷ oid) ∷ oids) = let h = below-suc n oids in ground arith

below_all : {oids : List Oid} → HasFirst oids → below 256 oids ≡ length oids
unfolding firsts
below_all no_oid = refl
below_all (one_oid lt more) = let h = below_all more in ground arith

get-bump-same :
    (i u : ℕ) (us : List ℕ)
    → get_elem? us i ≡ some u
    → suc u < 2 ^ 32
    → get_elem? (bump i us) i ≡ some (suc u)
unfolding bump
get-bump-same i u [] h lt = cc
get-bump-same zero u (v ∷ us) h lt = let e : v ≡ u = cc in ap some (omega (arith, e, lt))
get-bump-same (suc i) u (v ∷ us) h lt = get-bump-same i u us h lt

get-bump-other : (i j : ℕ) (us : List ℕ) → i ≢ j → get_elem? (bump i us) j ≡ get_elem? us j
unfolding bump
get-bump-other i j [] ne = refl
get-bump-other zero zero (v ∷ us) ne = absurd (ne refl)
get-bump-other zero (suc j) (v ∷ us) ne = refl
get-bump-other (suc i) zero (v ∷ us) ne = refl
get-bump-other (suc i) (suc j) (v ∷ us) ne = get-bump-other i j us (λ e. ne (ap suc e))

-- The first 256 elements of a table.
abbrev Holds : (ℕ → ℕ) → List ℕ → Type 0
Holds c us = (i : ℕ) → i < 256 → get_elem? us i ≡ some (c i)

-- The counts after one more oid with the first byte `b`.
abbrev one_more : ℕ → (ℕ → ℕ) → ℕ → ℕ
one_more b c i = if i == b then suc (c i) else c i

bump-Holds :
    (b : ℕ) (c : ℕ → ℕ) (us : List ℕ)
    → Holds c us
    → ((i : ℕ) → suc (c i) < 2 ^ 32)
    → Holds (one_more b c) (bump b us)
bump-Holds b c us h small i lt = elim (Bool-cases (i == b)) [
  | inl e ↦
      let same : b ≡ i = sym ((==_iff i b).0 e) in
      rw (e, same) (get-bump-same i (c i) us (h i lt) (small i))
  | inr e ↦ rw (e) (get-bump-other b i us (λ same. ground (arith, same, e)) ∙ h i lt)
]

one_more-at_byte :
    (b i : ℕ) (c : ℕ → ℕ) (oid : Oid) (oids : List Oid)
    → one_more b c i + at_byte i oids ≡ c i + at_byte i ((b ∷ oid) ∷ oids)
unfolding firsts
one_more-at_byte b i c oid oids = ground arith

count_first_lem :
    {oids : List Oid} (c : ℕ → ℕ) (us : List ℕ)
    → HasFirst oids
    → Holds c us
    → ((i : ℕ) → c i + length oids < 2 ^ 32)
    → (out : List ℕ) × (count_first oids us ≡ ok out) × Holds (λ i. c i + at_byte i oids) out
unfolding count_first firsts
count_first_lem c us no_oid h small = (us, refl, λ i lt. h i lt ∙ ap some (omega arith))
count_first_lem c us (one_oid {b = b} {oid = oid} {oids = oids} lt more) h small =
    let (out, e, held) =
      count_first_lem (one_more b c) (bump b us) more
        (bump-Holds b c us h (λ i. omega (arith, small i)))
        (λ i. let s = small i in ground arith) in
    (out, e, λ i lt. held i lt ∙ ap some (one_more-at_byte b i c oid oids))

running_sums_lem :
    (i acc : ℕ) (us : List ℕ) (g s : ℕ → ℕ)
    → ((j : ℕ) → j ≤ i → get_elem? us j ≡ some (g j))
    → s 0 ≡ acc
    → ((j : ℕ) → s (suc j) ≡ s j + g j)
    → ((j : ℕ) → s j < 2 ^ 32)
    → get_elem? (running_sums acc us) i ≡ some (s (suc i))
unfolding running_sums
running_sums_lem i acc [] g s h e step small = let gone = h 0 (omega arith) in cc
running_sums_lem zero acc (u ∷ us) g s h e step small =
    let first : u ≡ g 0 = let f = h 0 (omega arith) in cc in
    ap some (omega (arith, first, e, step 0, small 1))
running_sums_lem (suc i) acc (u ∷ us) g s h e step small =
    let first : u ≡ g 0 = let f = h 0 (omega arith) in cc in
    running_sums_lem i ((acc + u) % 2 ^ 32) us (λ j. g (suc j)) (λ j. s (suc j))
      (λ j le. h (suc j) (omega (arith, le))) (omega (arith, first, e, step 0, small 1))
      (λ j. step (suc j)) (λ j. small (suc j))

get-replicate : (n i : ℕ) → i < n → get_elem? {A = ℕ} (replicate n 0) i ≡ some 0
get-replicate zero i lt = absurd (omega (arith, lt))
get-replicate (suc n) zero lt = refl
get-replicate (suc n) (suc i) lt = get-replicate n i (omega (arith, lt))

fanout_at-found : (i u : ℕ) (us : List ℕ) → get_elem? us i ≡ some u → fanout_at i us ≡ ok u
unfolding fanout_at
fanout_at-found i u us h = rw (h, fanout_at) refl

build_fanout_lem :
    {oids : List Oid}
    → HasFirst oids
    → length oids < 2 ^ 32
    → (fanout : List ℕ) × (build_fanout oids ≡ ok fanout)
      × ((i : ℕ) → i < 256 → fanout_at i fanout ≡ ok (below (suc i) oids))
unfolding build_fanout
build_fanout_lem {oids = oids} first small =
    let (counts, e, held) =
      count_first_lem (λ i. 0) (replicate fanout_entryc 0) first (get-replicate 256)
        (λ i. omega (arith, small)) in
    (
      running_sums 0 counts,
      rw (e) refl,
      λ i lt. fanout_at-found i (below (suc i) oids) (running_sums 0 counts) (
          running_sums_lem i 0 counts (λ j. at_byte j oids) (λ j. below j oids)
            (λ j le. held j (omega (arith, le, lt)) ∙ ap some (omega arith)) (below-zero oids)
            (λ j. below-suc j oids) (λ j. omega (arith, firsts_bound (λ c. ltb c j) oids, small))),
    )

-- For fewer than 2^32 oids with a first byte each, the table is built; its last element is their number;
-- and the bucket that is read from it for a byte goes from the number of oids with a smaller first byte to
-- the number of those whose first byte is not greater.
pub bucket-build_fanout :
    {oids : List Oid} (b : ℕ) (oid : Oid)
    → HasFirst oids
    → length oids < 2 ^ 32
    → b < 256
    → (fanout : List ℕ) × (build_fanout oids ≡ ok fanout)
      × (fanout_at 255 fanout ≡ ok (length oids))
      × (bucket (b ∷ oid) fanout ≡ ok (below b oids, below (suc b) oids))
unfolding bucket
bucket-build_fanout {oids = oids} b oid first small lt =
    let (fanout, e, held) = build_fanout_lem first small in
    (fanout, e, held 255 (omega arith) ∙ ap ok (below_all first), of_byte b lt fanout held)
  where
    of_byte :
        (b : ℕ)
        → b < 256
        → (fanout : List ℕ) → ((i : ℕ) → i < 256 → fanout_at i fanout ≡ ok (below (suc i) oids))
        → bucket (b ∷ oid) fanout ≡ ok (below b oids, below (suc b) oids)
    of_byte zero lt fanout held = rw (held 0 lt, below-zero oids) refl
    of_byte (suc p) lt fanout held = rw (held p (omega (arith, lt)), held (suc p) lt) refl
