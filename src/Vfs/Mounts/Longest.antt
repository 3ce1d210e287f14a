-- ===== src/Vfs/Mounts/Longest.antt =====
-- The first mount that the search accepts is the longest that holds the path.
use serix.Base.{
  ◌≤◌, ◌≡◌, ◌⊎◌, sym, refl, true, false, ◌&&◌, List, [], ◌∷◌, Option, none, some, arith, ltb,
  length, All, Bool-cases, inl, inr, subst, All-map,
}
use serix.Vfs.Path.{Str}
use serix.Vfs.Mounts.{MountEntry, holds, find_mount}
use serix.Vfs.Mounts.Order.{Sorted}
use serix.Vfs.Mounts.Calls.{Call, run, run-WellFormed}

module _ {I : Type 0} where
  -- An entry of the table.
  abbrev pub Among : MountEntry I → List (MountEntry I) → Type 0
  Among e [] = ⊥
  Among e (f ∷ t) = (e ≡ f) ⊎ Among e t

  -- What a search may answer: no mount holds the path, or the longest of those that do.
  abbrev pub Answers : Str → List (MountEntry I) → Option (MountEntry I) → Type 0
  Answers path t none = All (λ f. holds path f.path ≡ false) t
  Answers path t (some e) =
      Among e t
      × (holds path e.path ≡ true)
      × All (λ f. (holds path f.path && ltb (length e.path) (length f.path)) ≡ false) t

  skip :
      (path : Str) (e : MountEntry I) (t : List (MountEntry I)) (o : Option (MountEntry I))
      → holds path e.path ≡ false
      → Answers path t o
      → Answers path (e ∷ t) o
  skip path e t none c a = (c, a)
  skip path e t (some f) c a = (inr a.0, a.1, (ground (arith, c), a.2))

  find_mount-Answers :
      (path : Str) (t : List (MountEntry I)) → Sorted t → Answers path t (find_mount path t)
  unfolding find_mount
  find_mount-Answers path [] o = tt
  find_mount-Answers path (e ∷ t) o = elim (Bool-cases (holds path e.path)) [
    | inl c ↦
        let q : find_mount path (e ∷ t) ≡ some e = rw (find_mount, c) refl in
        let all =
          All-map (λ f. length f.path ≤ length e.path)
            (λ f. (holds path f.path && ltb (length e.path) (length f.path)) ≡ false)
            (λ f l. ground arith) t o.0 in
        subst (Answers path (e ∷ t)) (sym q) (inl refl, c, (ground arith, all))
    | inr c ↦
        let q : find_mount path (e ∷ t) ≡ find_mount path t = rw (find_mount, c) refl in
        subst (Answers path (e ∷ t)) (sym q)
          (skip path e t (find_mount path t) c (find_mount-Answers path t o.1))
  ]

  -- After any sequence of mounts, unmounts and root mounts, the search for a path finds nothing only
  -- when no mount holds the path, and otherwise finds an entry of the table, with its path and node, that
  -- holds it and whose path is at least as long as that of every other entry that does.
  pub find_mount_longest :
      (cs : List (Call I)) (path : Str) → Answers path (run [] cs) (find_mount path (run [] cs))
  find_mount_longest cs path =
      find_mount-Answers path (run [] cs) (run-WellFormed cs [] (tt, (tt, tt))).0
