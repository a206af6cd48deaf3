-- ===== src/Index/Collisions/Directories.antt =====
-- libbit/src/index/index_inner.rs: the paths that the removal of files in the way of a path is about.
use bit.Prelude.{
  ◌==◌, ==_iff, ◌≡◌, ◌≢◌, ap, ◌⊎◌, inl, inr, none, List, [], ◌∷◌, ◌++◌, All, ℕ, Bool-cases,
  append_assoc, append-nil,
}
use bit.Path.{BitPath}
use bit.Index.{none_stage}
use bit.Index.Store.{Key, BitIndexInner, find_entry}
use bit.Index.Store.Changes.{IsIndex}
use bit.Index.Collisions.{remove_file_dir_collisions, cumulative_components, cumulative_from}
use bit.Index.Collisions.Laws.{remove_file_dir_collisions_all}

-- A path is itself, or what stands before one of its slashes.
abbrev pub IsOn : BitPath → BitPath → Type 0
IsOn c path = (path ≡ c) ⊎ ((rest : BitPath) × (path ≡ c ++ (b'/' ∷ rest)))

cumulative_from-IsOn : (front s : List ℕ) → All (λ c. IsOn c (front ++ s)) (cumulative_from front s)
unfolding cumulative_from
cumulative_from-IsOn front [] = (inl (append-nil front), tt)
cumulative_from-IsOn front (b ∷ s) =
    let more = rw (append_assoc front (b ∷ []) s) at (cumulative_from-IsOn (front ++ (b ∷ [])) s) in
    elim (Bool-cases (b == b'/')) [
      | inl e ↦ rw e (inr (s, ap (λ (x : ℕ). front ++ (x ∷ s)) ((==_iff b b'/').0 e)), more)
      | inr e ↦ rw e more
    ]

module _ (P : BitPath → Type 0) where
  at_end : (front s : List ℕ) → All P (cumulative_from front s) → P (front ++ s)
  unfolding cumulative_from
  at_end front [] h = rw (append-nil front) h.0
  at_end front (b ∷ s) h = elim (Bool-cases (b == b'/')) [
    | inl e ↦ rw (append_assoc front (b ∷ []) s) at (at_end (front ++ (b ∷ [])) s (rw e at h).1)
    | inr e ↦ rw (append_assoc front (b ∷ []) s) at (at_end (front ++ (b ∷ [])) s (rw e at h))
  ]

  at_slash :
      (front pre rest : List ℕ)
      → All P (cumulative_from front (pre ++ (b'/' ∷ rest)))
      → P (front ++ pre)
  unfolding cumulative_from
  at_slash front [] rest h = rw (append-nil front) h.0
  at_slash front (b ∷ pre) rest h = elim (Bool-cases (b == b'/')) [
    | inl e ↦
        rw (append_assoc front (b ∷ []) pre) at
          (at_slash (front ++ (b ∷ [])) pre rest (rw e at h).1)
    | inr e ↦
        rw (append_assoc front (b ∷ []) pre) at (at_slash (front ++ (b ∷ [])) pre rest (rw e at h))
  ]

  each_on : (path c : BitPath) → IsOn c path → All P (cumulative_components path) → P c
  unfolding cumulative_components
  each_on path c (inl e) h = rw e at (at_end [] path h)
  each_on path c (inr (rest, e)) h = at_slash [] c rest (rw e at h)

All-map :
    {P Q : BitPath → Type 0} (cs : List BitPath) → ((c : BitPath) → P c → Q c) → All P cs → All Q cs
All-map [] f h = tt
All-map (c ∷ cs) f h = (f c h.0, All-map cs f h.1)

-- After the removal of the files that a path has in the way, neither the path nor what stands before
-- any slash of it has an entry without a merge stage; any other key finds what it found; the index stays
-- sorted.
pub remove_file_dir_collisions_lem :
    (components : BitPath → List BitPath) (path : BitPath) (j : Key) (index : BitIndexInner)
    → IsIndex index
    → ((c : BitPath) → IsOn c path → j ≢ (c, none_stage))
    → ((c : BitPath)
        → IsOn c path
        → find_entry (c, none_stage) (remove_file_dir_collisions components path index) ≡ none)
      × (find_entry j (remove_file_dir_collisions components path index) ≡ find_entry j index)
      × IsIndex (remove_file_dir_collisions components path index)
unfolding cumulative_components
remove_file_dir_collisions_lem components path j index h other =
    let (gone, kept, sorted) =
      remove_file_dir_collisions_all components path j index h
        (All-map (cumulative_components path) other (cumulative_from-IsOn [] path)) in
    (
      λ c on.
          each_on
            (λ d.
              find_entry (d, none_stage) (remove_file_dir_collisions components path index) ≡ none)
            path c on gone,
      kept,
      sorted,
    )
