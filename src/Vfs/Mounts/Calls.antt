-- ===== src/Vfs/Mounts/Calls.antt =====
-- Every sequence of mounts and unmounts keeps the mount table in order.
use serix.Base.{
  ◌≤◌, ◌≡◌, ◌≢◌, refl, sym, ap, List, [], ◌∷◌, ◌++◌, none, some, arith, length, All, All-append,
  Bool-cases, Option-cases, inl, inr, subst, some_inj,
}
use serix.Vfs.Path.{Str, root, str_eq, str_eq_iff, trim_end, trim_end-slash, normalize_mount_path}
use serix.Vfs.Mounts.{MountEntry, replace, sort, mount, remove_at, umount, set_root}
use serix.Vfs.Mounts.Order.{
  Normal, WellFormed, All-sort, sort-Sorted, sort-Distinct, append-Distinct,
}

pub normalize_Normal :
    (path : Str) → normalize_mount_path path ≡ trim_end (normalize_mount_path path) ++ root
unfolding normalize_mount_path
normalize_Normal path = elim (Bool-cases (str_eq path root)) [
  | inl c ↦ rw c refl
  | inr c ↦ rw c (ap (λ s. s ++ root) (sym (trim_end-slash path)))
]

module _ {I : Type 0} where
  -- A replacement keeps every entry's path.
  replace-All :
      (P : Str → Type 0) (key : Str) (r : I) (t u : List (MountEntry I))
      → replace key r t ≡ some u
      → All (λ e. P e.path) t
      → All (λ e. P e.path) u
  unfolding replace
  replace-All P key r [] u h a = absurd cc
  replace-All P key r (e ∷ t) u h a = elim (Bool-cases (str_eq e.path key)) [
    | inl c ↦
        let g : some (record { path = e.path; node = r } ∷ t) ≡ some u = rw c at h in
        subst (All (λ e. P e.path)) (some_inj g) a
    | inr c ↦ elim (Option-cases (replace key r t)) [
      | inl n ↦ absurd (ground (arith, h, c, n))
      | inr (v, s) ↦
          let g : some (e ∷ v) ≡ some u = rw (c, s) at h in
          subst (All (λ e. P e.path)) (some_inj g) (a.0, replace-All P key r t v s a.1)
    ]
  ]

  replace-WellFormed :
      (key : Str) (r : I) (t u : List (MountEntry I))
      → replace key r t ≡ some u
      → WellFormed t
      → WellFormed u
  unfolding replace
  replace-WellFormed key r [] u h w = absurd (ground (arith, h))
  replace-WellFormed key r (e ∷ t) u h w = elim (Bool-cases (str_eq e.path key)) [
    | inl c ↦
        let g : some (record { path = e.path; node = r } ∷ t) ≡ some u = rw c at h in
        subst WellFormed (some_inj g) w
    | inr c ↦ elim (Option-cases (replace key r t)) [
      | inl n ↦ absurd (ground (arith, h, c, n))
      | inr (v, s) ↦
          let g : some (e ∷ v) ≡ some u = rw (c, s) at h in
          let ih = replace-WellFormed key r t v s (w.0.1, (w.1.0.1, w.1.1.1)) in
          subst WellFormed (some_inj g) (
            (
              (replace-All (λ p. length p ≤ length e.path) key r t v s w.0.0, ih.0),
              ((replace-All (λ p. p ≢ e.path) key r t v s w.1.0.0, ih.1.0), (w.1.1.0, ih.1.1)),
            ))
    ]
  ]

  -- Where nothing was replaced, no entry has the path.
  pub replace-none :
      (key : Str) (r : I) (t : List (MountEntry I))
      → replace key r t ≡ none
      → All (λ e. e.path ≢ key) t
  unfolding replace
  replace-none key r [] h = tt
  replace-none key r (e ∷ t) h = elim (Bool-cases (str_eq e.path key)) [
    | inl c ↦ absurd (ground (arith, h, c))
    | inr c ↦ elim (Option-cases (replace key r t)) [
      | inl n ↦ (
        (λ q. let b = (str_eq_iff e.path key).1 q in ground (arith, b, c)),
        replace-none key r t n,
      )
      | inr (v, s) ↦ absurd (ground (arith, h, c, s))
    ]
  ]

  pub mount-WellFormed :
      (path : Str) (r : I) (t : List (MountEntry I)) → WellFormed t → WellFormed (mount path r t)
  unfolding mount
  mount-WellFormed path r t w =
      let key = normalize_mount_path path in
      let e : MountEntry I = record { path = key; node = r } in
      elim (Option-cases (replace key r t)) [
        | inl n ↦
            let d = append-Distinct t e (replace-none key r t n) w.1.0 in
            let a = All-append Normal t (e ∷ []) w.1.1 (normalize_Normal path, tt) in
            let q : mount path r t ≡ sort (t ++ e ∷ []) = rw (mount, n) refl in
            subst WellFormed (sym q) (
              sort-Sorted (t ++ e ∷ []),
              (sort-Distinct (t ++ e ∷ []) d, All-sort Normal (t ++ e ∷ []) a),
            )
        | inr (u, s) ↦
            let q : mount path r t ≡ u = rw (mount, s) refl in
            subst WellFormed (sym q) (replace-WellFormed key r t u s w)
      ]

  remove_at-All :
      (P : MountEntry I → Type 0) (key : Str) (t u : List (MountEntry I))
      → remove_at key t ≡ some u
      → All P t
      → All P u
  unfolding remove_at
  remove_at-All P key [] u h a = absurd (ground (arith, h))
  remove_at-All P key (e ∷ t) u h a = elim (Bool-cases (str_eq e.path key)) [
    | inl c ↦ let g : some t ≡ some u = rw c at h in subst (All P) (some_inj g) a.1
    | inr c ↦ elim (Option-cases (remove_at key t)) [
      | inl n ↦ absurd (ground (arith, h, c, n))
      | inr (v, s) ↦
          let g : some (e ∷ v) ≡ some u = rw (c, s) at h in
          subst (All P) (some_inj g) (a.0, remove_at-All P key t v s a.1)
    ]
  ]

  remove_at-WellFormed :
      (key : Str) (t u : List (MountEntry I))
      → remove_at key t ≡ some u
      → WellFormed t
      → WellFormed u
  unfolding remove_at
  remove_at-WellFormed key [] u h w = absurd (ground (arith, h))
  remove_at-WellFormed key (e ∷ t) u h w = elim (Bool-cases (str_eq e.path key)) [
    | inl c ↦
        let g : some t ≡ some u = rw c at h in
        subst WellFormed (some_inj g) (w.0.1, (w.1.0.1, w.1.1.1))
    | inr c ↦ elim (Option-cases (remove_at key t)) [
      | inl n ↦ absurd (ground (arith, h, c, n))
      | inr (v, s) ↦
          let g : some (e ∷ v) ≡ some u = rw (c, s) at h in
          let ih = remove_at-WellFormed key t v s (w.0.1, (w.1.0.1, w.1.1.1)) in
          subst WellFormed (some_inj g) (
            (
              (remove_at-All (λ f. length f.path ≤ length e.path) key t v s w.0.0, ih.0),
              ((remove_at-All (λ f. f.path ≢ e.path) key t v s w.1.0.0, ih.1.0), (w.1.1.0, ih.1.1)),
            ))
    ]
  ]

-- A call that changes the table.
pub data Call (I : Type 0) : Type 0 where
  mounted : Str → I → Call I
  unmounted : Str → Call I
  rooted : I → Call I

module _ {I : Type 0} where
  -- An unmount that fails leaves the table as it is.
  unfoldable pub call : List (MountEntry I) → Call I → List (MountEntry I)
  call t (mounted path r) = mount path r t
  call t (unmounted path) = elim (umount path t) [ none ↦ t | some u ↦ u ]
  call t (rooted r) = set_root r t

  unfoldable pub run : List (MountEntry I) → List (Call I) → List (MountEntry I)
  run t [] = t
  run t (c ∷ cs) = run (call t c) cs

  call-WellFormed : (t : List (MountEntry I)) (c : Call I) → WellFormed t → WellFormed (call t c)
  unfolding call umount set_root
  call-WellFormed t (mounted path r) w = mount-WellFormed path r t w
  call-WellFormed t (unmounted path) w =
      elim (Option-cases (remove_at (normalize_mount_path path) t)) [
        | inl n ↦
            let q : call t (unmounted path) ≡ t = rw (call, umount, n) refl in
            subst WellFormed (sym q) w
        | inr (u, s) ↦
            let q : call t (unmounted path) ≡ u = rw (call, umount, s) refl in
            subst WellFormed (sym q) (remove_at-WellFormed (normalize_mount_path path) t u s w)
      ]
  call-WellFormed t (rooted r) w = mount-WellFormed root r t w

  -- From any well-formed table, in particular the empty one, every sequence of mounts, unmounts and
  -- root mounts leaves a table that is well formed: sorted by the length of the paths, longest
  -- first, with no path twice and one slash at the end of each.
  pub run-WellFormed :
      (cs : List (Call I)) (t : List (MountEntry I)) → WellFormed t → WellFormed (run t cs)
  unfolding run
  run-WellFormed [] t w = w
  run-WellFormed (c ∷ cs) t w = run-WellFormed cs (call t c) (call-WellFormed t c w)
