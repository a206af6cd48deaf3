-- ===== src/Diff/Walk.antt =====
-- libbit/src/diff.rs: what a walk over two sorted streams reports.
use Prim.Native.Nat.{Ordering}
use bit.Prelude.{
  ℕ, suc, ◌≡◌, refl, ap, ◌∙◌, true, false, if◌then◌else◌, Option, none, some, List, [], ◌∷◌, ◌++◌,
  All, append_assoc, append-nil, inl, inr,
}
use bit.Result.{Result, ok, ◌>>=◌}
use bit.Path.{BitPath, path_cmp}
use bit.SortedMap.Laws.{Ordering-cases}
use bit.Index.{BitIndexEntry}
use bit.Index.Store.Laws.{path_same, path_refl, path_trans}
use bit.Diff.{
  Compare, Streams, WorkspaceStatus, DiffEntry, diff_cmp, next, for_each, index_worktree_differ,
  on_entry, created, deleted, modified,
}

abbrev pub Above : BitIndexEntry → List BitIndexEntry → Type 0
Above e = All (λ f. diff_cmp e f ≡ Ordering.lt)

-- Every entry's path is below those of the entries behind it.
abbrev pub Ascending : List BitIndexEntry → Type 0
Ascending [] = Unit
Ascending (e ∷ es) = Above e es × Ascending es

abbrev pub find_path : BitPath → List BitIndexEntry → Option BitIndexEntry
find_path p [] = none
find_path p (e ∷ es) =
    let more = find_path p es in
    elim (path_cmp p e.path) [ Ordering.eq ↦ some e | Ordering.lt ↦ more | Ordering.gt ↦ more ]

abbrev pub keep_missing :
    Option BitIndexEntry → BitIndexEntry → List BitIndexEntry → List BitIndexEntry
keep_missing none e more = e ∷ more
keep_missing (some f) e more = more

-- The entries whose path no entry of the other list has.
abbrev pub missing : List BitIndexEntry → List BitIndexEntry → List BitIndexEntry
missing [] fs = []
missing (e ∷ es) fs = keep_missing (find_path e.path fs) e (missing es fs)

pub Above-trans :
    (e f : BitIndexEntry) (es : List BitIndexEntry)
    → diff_cmp e f ≡ Ordering.lt
    → Above f es
    → Above e es
unfolding diff_cmp
Above-trans e f [] h a = tt
Above-trans e f (g ∷ es) h a = (path_trans e.path f.path g.path h a.0, Above-trans e f es h a.1)

pub swap : (e f : BitIndexEntry) → diff_cmp e f ≡ Ordering.lt → path_cmp f.path e.path ≡ Ordering.gt
unfolding diff_cmp
swap e f h = elim (Ordering-cases (path_cmp f.path e.path)) [
  | inl o ↦ absurd (loop e.path (path_trans e.path f.path e.path h o))
  | inr (inl o) ↦
      absurd (loop f.path (ap (λ (p : BitPath). path_cmp p f.path) (path_same f.path e.path o) ∙ h))
  | inr (inr o) ↦ o
]
  where
    loop : (p : BitPath) → path_cmp p p ≡ Ordering.lt → ⊥
    loop p l = cc (path_refl p)

pub find_path-Above :
    (e : BitIndexEntry) (es : List BitIndexEntry) → Above e es → find_path e.path es ≡ none
unfolding diff_cmp
find_path-Above e [] a = refl
find_path-Above e (f ∷ es) a = rw (a.0, find_path) (find_path-Above e es a.1)

-- An entry below all of a list is none of those that the list asks for.
pub missing_skip :
    (e : BitIndexEntry) (es fs : List BitIndexEntry)
    → Above e es
    → missing es (e ∷ fs) ≡ missing es fs
missing_skip e [] fs a = refl
missing_skip e (f ∷ es) fs a =
    rw (swap e f a.0, find_path)
      (ap (keep_missing (find_path f.path fs) f) (missing_skip e es fs a.1))

module _ {S : Type 0} (has_changes : Compare S) where
  abbrev pub Compared : Type 0
  Compared = Result (List (BitIndexEntry × BitIndexEntry) × S)

  -- A pair that differs is kept, with what the comparison makes of the new entry.
  unfoldable pub compare_found :
      Option BitIndexEntry → BitIndexEntry → (S → Compared) → S → Compared
  compare_found none o rest s = rest s
  compare_found (some n) o rest s = has_changes o n s >>= λ r.
      rest r.2 >>= λ more. ok (if r.0 then (o, r.1) ∷ more.0 else more.0, more.1)

  -- The pairs of entries with one path, compared one after the other.
  abbrev pub compare_all : List BitIndexEntry → List BitIndexEntry → S → Compared
  compare_all [] new = λ s. ok ([], s)
  compare_all (o ∷ os) new = compare_found (find_path o.path new) o (compare_all os new)

  pub compare_skip :
      (e : BitIndexEntry) (es fs : List BitIndexEntry)
      → Above e es
      → compare_all es (e ∷ fs) ≡ compare_all es fs
  compare_skip e [] fs a = refl
  compare_skip e (f ∷ es) fs a =
      rw (swap e f a.0, find_path)
        (ap (compare_found (find_path f.path fs) f) (compare_skip e es fs a.1))

abbrev pub plus :
    WorkspaceStatus
    → List BitIndexEntry
    → List (BitIndexEntry × BitIndexEntry)
    → List BitIndexEntry
    → WorkspaceStatus
plus st n m d = record { new = st.new ++ n; modified = st.modified ++ m; deleted = st.deleted ++ d }

pub plus_new :
    (st : WorkspaceStatus) (n : BitIndexEntry) (a : List BitIndexEntry)
    (b : List (BitIndexEntry × BitIndexEntry)) (c : List BitIndexEntry)
    → plus (record { new = st.new ++ (n ∷ []); modified = st.modified; deleted = st.deleted }) a b c
      ≡ plus st (n ∷ a) b c
plus_new st n a b c =
    ap
      (λ (l : List BitIndexEntry). record {
        new = l;
        modified = st.modified ++ b;
        deleted = st.deleted ++ c;
      })
      (append_assoc st.new (n ∷ []) a)

pub plus_modified :
    (st : WorkspaceStatus) (m : BitIndexEntry × BitIndexEntry) (a : List BitIndexEntry)
    (b : List (BitIndexEntry × BitIndexEntry)) (c : List BitIndexEntry)
    → plus (record { new = st.new; modified = st.modified ++ (m ∷ []); deleted = st.deleted }) a b c
      ≡ plus st a (m ∷ b) c
plus_modified st m a b c =
    ap
      (λ (l : List (BitIndexEntry × BitIndexEntry)). record {
        new = st.new ++ a;
        modified = l;
        deleted = st.deleted ++ c;
      })
      (append_assoc st.modified (m ∷ []) b)

pub plus_deleted :
    (st : WorkspaceStatus) (o : BitIndexEntry) (a : List BitIndexEntry)
    (b : List (BitIndexEntry × BitIndexEntry)) (c : List BitIndexEntry)
    → plus (record { new = st.new; modified = st.modified; deleted = st.deleted ++ (o ∷ []) }) a b c
      ≡ plus st a b (o ∷ c)
plus_deleted st o a b c =
    ap
      (λ (l : List BitIndexEntry). record {
        new = st.new ++ a;
        modified = st.modified ++ b;
        deleted = l;
      })
      (append_assoc st.deleted (o ∷ []) c)

pub plus_nothing : (st : WorkspaceStatus) → plus st [] [] [] ≡ st
plus_nothing st = rw (append-nil st.new, append-nil st.modified, append-nil st.deleted) refl

module _ {S : Type 0} (has_changes : Compare S) where
  abbrev pub at : S → List BitIndexEntry → List BitIndexEntry → Streams S
  at s old new = record { index = s; old_iter = old; new_iter = new }

  abbrev pub runs : ℕ → Streams S → WorkspaceStatus → Result (WorkspaceStatus × S)
  runs = for_each has_changes index_worktree_differ

  pub runs_step :
      (fuel : ℕ) (s : S) (old new : List BitIndexEntry) (st st' : WorkspaceStatus) (e : DiffEntry)
      (i : Streams S)
      → next has_changes s old new ≡ ok (some e, i)
      → on_entry index_worktree_differ e st ≡ ok st'
      → runs (suc fuel) (at s old new) st ≡ runs fuel i st'
  unfolding for_each
  runs_step fuel s old new st st' e i h k = rw h (rw k refl)

  pub runs_skip :
      (fuel : ℕ) (s s' : S) (old new old' new' : List BitIndexEntry) (st : WorkspaceStatus)
      → next has_changes s old new ≡ next has_changes s' old' new'
      → runs (suc fuel) (at s old new) st ≡ runs (suc fuel) (at s' old' new') st
  unfolding for_each
  runs_skip fuel s s' old new old' new' st h = rw h refl

  pub next_lt :
      (s : S) (o n : BitIndexEntry) (os ns : List BitIndexEntry)
      → diff_cmp o n ≡ Ordering.lt
      → next has_changes s (o ∷ os) (n ∷ ns) ≡ ok (some (deleted o), at s os (n ∷ ns))
  unfolding next
  next_lt s o n os ns h = rw (h, next) refl

  pub next_gt :
      (s : S) (o n : BitIndexEntry) (os ns : List BitIndexEntry)
      → diff_cmp o n ≡ Ordering.gt
      → next has_changes s (o ∷ os) (n ∷ ns) ≡ ok (some (created n), at s (o ∷ os) ns)
  unfolding next
  next_gt s o n os ns h = rw (h, next) refl

  pub next_modified :
      (s s' : S) (o n n' : BitIndexEntry) (os ns : List BitIndexEntry)
      → diff_cmp o n ≡ Ordering.eq
      → has_changes o n s ≡ ok (true, n', s')
      → next has_changes s (o ∷ os) (n ∷ ns) ≡ ok (some (modified o n'), at s' os ns)
  unfolding next
  next_modified s s' o n n' os ns h k = rw (h, next) (rw (k, next) refl)

  pub next_same :
      (s s' : S) (o n n' : BitIndexEntry) (os ns : List BitIndexEntry)
      → diff_cmp o n ≡ Ordering.eq
      → has_changes o n s ≡ ok (false, n', s')
      → next has_changes s (o ∷ os) (n ∷ ns) ≡ next has_changes s' os ns
  unfolding next
  next_same s s' o n n' os ns h k = rw (h, next) (rw (k, next) refl)
