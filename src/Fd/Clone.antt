-- ===== src/Fd/Clone.antt =====
-- `clone_for_task` of kernel/src/fd.rs: the child gets every descriptor of the parent, each with a
-- cursor of its own.
use mathlib.Core.Option
use serix.Base.{
  ℕ, zero, suc, ◌≤◌, ◌<◌, ◌≡◌, ◌≢◌, ◌⊎◌, refl, ap, ap₂, subst, ℕ_discrete, ◌∙◌, ◌&&◌, List, [], ◌∷◌,
  ◌++◌, none, some, arith, if◌then◌else◌, ◌==◌, length, get_elem?, Option-cases, inl, inr, Absent,
  Distinct, length-append,
}
use serix.Base.Map
use serix.Base.Map.{pair_keyed, nat_keyed, get-insert, get-Absent, pair_same_iff, keys}
use serix.Fd.{OpenFile, FdTable, get, file, insert_file, collect, insert_all, clone_for_task}

module _ {I : Type 0} where
  -- Every handle in the table stands for a file.
  pub record HandlesValid (s : FdTable I) : Type 0 where
    pub valid : (task fd h : ℕ) → get task fd s ≡ some h → h < length s.files

  get_elem?-append :
      (fs gs : List (OpenFile I)) (h : ℕ) → h < length fs → get_elem? (fs ++ gs) h ≡ get_elem? fs h
  get_elem?-append [] gs h p = absurd (omega arith)
  get_elem?-append (x ∷ fs) gs zero p = refl
  get_elem?-append (x ∷ fs) gs (suc h) p = get_elem?-append fs gs h (omega arith)

  get_elem?-last :
      (fs : List (OpenFile I)) (f : OpenFile I) → get_elem? (fs ++ f ∷ []) (length fs) ≡ some f
  get_elem?-last [] f = refl
  get_elem?-last (x ∷ fs) f = get_elem?-last fs f

  insert_file-HandlesValid :
      (task fd : ℕ) (f : OpenFile I) (s : FdTable I)
      → HandlesValid s
      → HandlesValid (insert_file task fd f s)
  unfolding get
  insert_file-HandlesValid task fd f s v = record {
    valid = λ t k h e. ground (
      arith,
      get-insert (task, fd) (t, k) (length s.files) s.table,
      length-append s.files (f ∷ []),
      v.valid t k h,
    );
  }

  file-insert_file :
      (task fd t k : ℕ) (f : OpenFile I) (s : FdTable I)
      → HandlesValid s
      → file t k (insert_file task fd f s) ≡ (if task == t && fd == k then some f else file t k s)
  unfolding file
  file-insert_file task fd t k f s v = elim (Option-cases (get t k s)) [
    | inl e ↦
        unfold get in
        ground (
          arith,
          get-insert (task, fd) (t, k) (length s.files) s.table,
          get_elem?-last s.files f,
          e,
        )
    | inr (h, e) ↦
        unfold get in
        ground (
          arith,
          get-insert (task, fd) (t, k) (length s.files) s.table,
          get_elem?-last s.files f,
          get_elem?-append s.files (f ∷ []) h (v.valid t k h e),
          e,
        )
  ]

  file-insert_all :
      (dst t k : ℕ) (es : List (ℕ × OpenFile I)) (s : FdTable I)
      → HandlesValid s
      → Distinct (keys es)
      → file t k (insert_all dst es s)
        ≡ (if dst == t then Option.or_else (Map.get k es) (file t k s) else file t k s)
  unfolding insert_all Map.get Option.or_else
  file-insert_all dst t k [] s v d = ground arith
  file-insert_all dst t k ((fd, f) ∷ es) s v d = ground (
    arith,
    file-insert_all dst t k es (insert_file dst fd f s) (insert_file-HandlesValid dst fd f s v) d.1,
    file-insert_file dst fd t k f s v,
    λ (q : fd ≡ k). get-Absent k es (subst (λ j. Absent j (keys es)) q d.0),
  )

  -- What the first pass finds under a descriptor.
  get-collect :
      (src k : ℕ) (files : List (OpenFile I)) (m : List ((ℕ × ℕ) × ℕ))
      → Distinct (keys m)
      → Map.get k (collect src files m)
        ≡ elim (Map.get (src, k) m) [ none ↦ none | some h ↦ get_elem? files h ]
  unfolding collect Map.get
  get-collect src k files [] d = refl
  get-collect src k files (((task, fd), h) ∷ m) d = ground (
    arith,
    get-collect src k files m d.1,
    λ (q : task ≡ src) (r : fd ≡ k).
        get-Absent (src, k) m (subst (λ j. Absent j (keys m)) (ap₂ (λ (x y : ℕ). (x, y)) q r) d.0),
  )

  collect-Absent :
      (src k : ℕ) (files : List (OpenFile I)) (m : List ((ℕ × ℕ) × ℕ))
      → Absent (src, k) (keys m)
      → Absent k (keys (collect src files m))
  unfolding collect
  collect-Absent src k files [] a = tt
  collect-Absent src k files (((task, fd), h) ∷ m) a =
      let rest = collect-Absent src k files m a.1 in
      elim (ℕ_discrete task src) [
        | yes q ↦ let other : fd ≢ k = λ r. a.0 (ap₂ (λ (x y : ℕ). (x, y)) q r) in ground arith
        | no q ↦ ground arith
      ]

  collect-Distinct :
      (src : ℕ) (files : List (OpenFile I)) (m : List ((ℕ × ℕ) × ℕ))
      → Distinct (keys m)
      → Distinct (keys (collect src files m))
  unfolding collect
  collect-Distinct src files [] d = tt
  collect-Distinct src files (((task, fd), h) ∷ m) d =
      let rest = collect-Distinct src files m d.1 in
      elim (ℕ_discrete task src) [
        | yes q ↦
            let fresh =
              collect-Absent src fd files m (subst (λ t. Absent (t, fd) (keys m)) q d.0) in
            ground arith
        | no q ↦ ground arith
      ]

  pub file-collect :
      (src k : ℕ) (s : FdTable I)
      → Distinct (keys s.table)
      → Map.get k (collect src s.files s.table) ≡ file src k s
  unfolding file get
  file-collect src k s d = get-collect src k s.files s.table d

  -- After `clone_for_task` the child has, under each descriptor of the parent, a file with the
  -- parent's node and the parent's cursor position; its other descriptors and those of all other
  -- tasks, the parent's too, are as before.
  pub clone_copies :
      (src dst t k : ℕ) (s : FdTable I)
      → HandlesValid s
      → Distinct (keys s.table)
      → file t k (clone_for_task src dst s)
        ≡ (if dst == t then Option.or_else (file src k s) (file t k s) else file t k s)
  unfolding clone_for_task
  clone_copies src dst t k s v d =
      file-insert_all dst t k (collect src s.files s.table) s v
        (collect-Distinct src s.files s.table d)
      ∙ ap (λ o. if dst == t then Option.or_else o (file t k s) else file t k s)
          (file-collect src k s d)

  -- Descriptors that the second pass does not write keep their handles.
  pub get-insert_all :
      (dst t k : ℕ) (es : List (ℕ × OpenFile I)) (s : FdTable I)
      → (t ≢ dst) ⊎ (Map.get k es ≡ none)
      → get t k (insert_all dst es s) ≡ get t k s
  unfolding insert_all get Map.get
  get-insert_all dst t k [] s h = refl
  get-insert_all dst t k ((fd, f) ∷ es) s h = ground (
    arith,
    get-insert_all dst t k es (insert_file dst fd f s),
    get-insert (dst, fd) (t, k) (length s.files) s.table,
  )

  -- Those that it writes get new ones.
  pub insert_all-fresh :
      (dst k h : ℕ) (es : List (ℕ × OpenFile I)) (s : FdTable I)
      → Map.get k es ≢ none
      → get dst k (insert_all dst es s) ≡ some h
      → length s.files ≤ h
  unfolding insert_all get Map.get
  insert_all-fresh dst k h [] s p e = absurd (p refl)
  insert_all-fresh dst k h ((fd, f) ∷ es) s p e = elim (Option-cases (Map.get k es)) [
    | inl last ↦ ground (
      arith,
      get-insert_all dst dst k es (insert_file dst fd f s) (inr last),
      get-insert (dst, fd) (dst, k) (length s.files) s.table,
    )
    | inr (g, more) ↦ ground (
      arith,
      insert_all-fresh dst k h es (insert_file dst fd f s) (λ z. cc),
      length-append s.files (f ∷ []),
    )
  ]
