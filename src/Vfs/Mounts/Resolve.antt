-- ===== src/Vfs/Mounts/Resolve.antt =====
-- `lookup_path` resolves against the longest mount that holds the path.
use serix.Base.{
  ◌≤◌, ◌≡◌, ◌≢◌, ◌⊎◌, refl, sym, ap, true, false, List, [], ◌∷◌, ◌++◌, Option, some, arith, ltb,
  length, All, All-append, All-zip, Bool-cases, Option-cases, inl, inr, subst, some_inj,
}
use serix.Vfs.Path.{
  Str, root, str_eq, str_eq_iff, is_empty, trim_end, trim_end-trim_end, normalize_mount_path,
}
use serix.Vfs.Mounts.{
  MountEntry, replace, place, sort, mount, holds, find_mount, remainder, lookup_path,
}
use serix.Vfs.Mounts.Order.{Sorted, Distinct, Normal, WellFormed, All-sort}
use serix.Vfs.Mounts.Calls.{mount-WellFormed, replace-none}
use serix.Vfs.Mounts.Leads.{Leads, key-Leads, bare-Leads}

normalize_mount_path_lem : (path : Str) → normalize_mount_path path ≡ trim_end path ++ root
unfolding normalize_mount_path
normalize_mount_path_lem path = elim (Bool-cases (str_eq path root)) [
  | inl c ↦
      let q = (str_eq_iff path root).0 c in
      rw (normalize_mount_path, c) (ap (λ s. trim_end s ++ root) (sym q))
  | inr c ↦ rw (normalize_mount_path, c) refl
]

module _ {I : Type 0} where
  abbrev Has : Str → List (MountEntry I) → Type 0
  Has key [] = ⊥
  Has key (e ∷ t) = (e.path ≡ key) ⊎ Has key t

  place-Has :
      (key : Str) (e : MountEntry I) (t : List (MountEntry I))
      → (e.path ≡ key) ⊎ Has key t
      → Has key (place e t)
  unfolding place
  place-Has key e [] h = h
  place-Has key e (f ∷ t) (inl h) = elim (Bool-cases (ltb (length e.path) (length f.path))) [
    | inl c ↦ rw c (inr (place-Has key e t (inl h)))
    | inr c ↦ rw c (inl h)
  ]
  place-Has key e (f ∷ t) (inr (inl h)) = elim (Bool-cases (ltb (length e.path) (length f.path))) [
    | inl c ↦ rw c (inl h)
    | inr c ↦ rw c (inr (inl h))
  ]
  place-Has key e (f ∷ t) (inr (inr h)) = elim (Bool-cases (ltb (length e.path) (length f.path))) [
    | inl c ↦ rw c (inr (place-Has key e t (inr h)))
    | inr c ↦ rw c (inr (inr h))
  ]

  sort-Has : (key : Str) (t : List (MountEntry I)) → Has key t → Has key (sort t)
  unfolding sort
  sort-Has key [] h = elim h [ ]
  sort-Has key (e ∷ t) (inl h) = place-Has key e (sort t) (inl h)
  sort-Has key (e ∷ t) (inr h) = place-Has key e (sort t) (inr (sort-Has key t h))

  append-Has :
      (key : Str) (t : List (MountEntry I)) (e : MountEntry I)
      → e.path ≡ key
      → Has key (t ++ e ∷ [])
  append-Has key [] e h = inl h
  append-Has key (f ∷ t) e h = inr (append-Has key t e h)

  -- The table holds `key`, at the node `r` only.
  abbrev Bound : Str → I → List (MountEntry I) → Type 0
  Bound key r t = Has key t × All (λ e. e.path ≡ key → e.node ≡ r) t

  vacuous :
      (key : Str) (r : I) (t : List (MountEntry I))
      → All (λ e. e.path ≢ key) t
      → All (λ e. e.path ≡ key → e.node ≡ r) t
  vacuous key r [] h = tt
  vacuous key r (e ∷ t) h = ((λ q. absurd (h.0 q)), vacuous key r t h.1)

  replace-Bound :
      (key : Str) (r : I) (t u : List (MountEntry I))
      → replace key r t ≡ some u
      → Distinct t
      → Bound key r u
  unfolding replace
  replace-Bound key r [] u h d = absurd (ground (arith, h))
  replace-Bound key r (e ∷ t) u h d = elim (Bool-cases (str_eq e.path key)) [
    | inl c ↦
        let q = (str_eq_iff e.path key).0 c in
        let g : some (record { path = e.path; node = r } ∷ t) ≡ some u = rw c at h in
        let a = subst (λ k. All (λ f. f.path ≢ k) t) q d.0 in
        subst (Bound key r) (some_inj g) (inl q, ((λ p. refl), vacuous key r t a))
    | inr c ↦ elim (Option-cases (replace key r t)) [
      | inl n ↦ absurd (ground (arith, h, c, n))
      | inr (v, s) ↦
          let g : some (e ∷ v) ≡ some u = rw (c, s) at h in
          let ih = replace-Bound key r t v s d.1 in
          let ne : e.path ≢ key =
            λ q. let b = (str_eq_iff e.path key).1 q in ground (arith, b, c) in
          subst (Bound key r) (some_inj g) (inr ih.0, ((λ q. absurd (ne q)), ih.1))
    ]
  ]

  mount-Bound :
      (path : Str) (r : I) (t : List (MountEntry I))
      → Distinct t
      → Bound (normalize_mount_path path) r (mount path r t)
  unfolding mount sort
  mount-Bound path r t d =
      let key = normalize_mount_path path in
      let e : MountEntry I = record { path = key; node = r } in
      elim (Option-cases (replace key r t)) [
        | inl n ↦
            let q : mount path r t ≡ sort (t ++ e ∷ []) = rw (mount, n) refl in
            let a =
              All-append (λ f. f.path ≡ key → f.node ≡ r) t (e ∷ [])
                (vacuous key r t (replace-none key r t n)) ((λ p. refl), tt) in
            subst (Bound key r) (sym q) (
              sort-Has key (t ++ e ∷ []) (append-Has key t e refl),
              All-sort (λ f. f.path ≡ key → f.node ≡ r) (t ++ e ∷ []) a,
            )
        | inr (u, s) ↦
            let q : mount path r t ≡ u = rw (mount, s) refl in
            subst (Bound key r) (sym q) (replace-Bound key r t u s d)
      ]

  All-Has :
      (P : Str → Type 0) (key : Str) (t : List (MountEntry I))
      → All (λ e. P e.path) t
      → Has key t
      → P key
  All-Has P key [] a h = elim h [ ]
  All-Has P key (e ∷ t) a (inl q) = subst P q a.0
  All-Has P key (e ∷ t) a (inr h) = All-Has P key t a.1 h

  -- What the search finds holds the path, satisfies what every entry satisfies, and is at least as
  -- long as any entry of the table that holds the path.
  find_mount-Has :
      (path key : Str) (t : List (MountEntry I)) (P : MountEntry I → Type 0)
      → Sorted t
      → Has key t
      → holds path key ≡ true
      → All P t
      → (e : MountEntry I) × ((find_mount path t ≡ some e)
          × ((length key ≤ length e.path) × ((holds path e.path ≡ true) × P e)))
  unfolding find_mount
  find_mount-Has path key [] P o h k a = elim h [ ]
  find_mount-Has path key (e ∷ t) P o h k a = elim (Bool-cases (holds path e.path)) [
    | inl c ↦ (e, (rw c refl, (at_least h, (c, a.0))))
    | inr c ↦
        let found = find_mount-Has path key t P o.1 (later h c) k a.1 in
        (found.0, (rw c found.1.0, found.1.1))
  ]
    where
      at_least : (e.path ≡ key) ⊎ Has key t → length key ≤ length e.path
      at_least (inl q) = let l = ap length q in omega (arith, l)
      at_least (inr g) = All-Has (λ p. length p ≤ length e.path) key t o.0 g

      later : (e.path ≡ key) ⊎ Has key t → holds path e.path ≡ false → Has key t
      later (inl q) c = absurd (let d = ap (holds path) q in ground (arith, c, d, k))
      later (inr g) c = g

  -- A path that leads to a mount point resolves to the root that was mounted there last.
  Leads-lookup :
      (lookup : I → Str → Option I) (path q : Str) (r : I) (t : List (MountEntry I))
      → WellFormed t
      → Leads q (normalize_mount_path path)
      → lookup_path lookup q (mount path r t) ≡ some r
  unfolding lookup_path
  Leads-lookup lookup path q r t w l =
      let key = normalize_mount_path path in
      let after = mount-WellFormed path r t w in
      let bound = mount-Bound path r t w.1.0 in
      let P : MountEntry I → Type 0 = λ e. (e.path ≡ key → e.node ≡ r) × Normal e in
      let found = find_mount-Has q key (mount path r t) P after.0 bound.0 l.0 (
        All-zip (λ e. e.path ≡ key → e.node ≡ r) Normal P (λ x a b. (a, b)) (mount path r t) bound.1
          after.1.1) in
      let e = found.0 in
      let most = l.1.0 e.path found.1.1.1.1.1 found.1.1.1.0 in
      let same = most.1 (omega (arith, found.1.1.0, most.0)) in
      let rest = subst (λ p. is_empty (remainder q p) ≡ true) (sym same) l.1.1 in
      let node = found.1.1.1.1.0 same in rw (lookup_path, found.1.0, rest) (ap some node)

  -- For any well-formed table and any path that is not only slashes, a root mounted there is what the
  -- path then resolves to, written with one slash behind it and written with none: no other mount
  -- shadows it, and a mount that was there before is replaced.
  pub lookup_path-mount :
      (lookup : I → Str → Option I) (path : Str) (r : I) (t : List (MountEntry I))
      → WellFormed t
      → is_empty (trim_end path) ≡ false
      → (lookup_path lookup (normalize_mount_path path) (mount path r t) ≡ some r)
        × (lookup_path lookup (trim_end path) (mount path r t) ≡ some r)
  lookup_path-mount lookup path r t w ne =
      let b = trim_end path in
      let n = trim_end-trim_end path in
      let key = normalize_mount_path_lem path in
      let slash = subst (Leads (b ++ root)) (sym key) (key-Leads b n) in
      let bare = subst (Leads b) (sym key) (bare-Leads b n ne) in
      (
        subst (λ q. lookup_path lookup q (mount path r t) ≡ some r) (sym key)
            (Leads-lookup lookup path (b ++ root) r t w slash),
        Leads-lookup lookup path b r t w bare,
      )
