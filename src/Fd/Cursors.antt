-- ===== src/Fd/Cursors.antt =====
-- After `clone_for_task` of kernel/src/fd.rs the parent's cursors are its own.
use serix.Base.{
  ℕ, zero, suc, ◌≤◌, ◌<◌, ◌≡◌, ◌≢◌, refl, sym, ap, ◌∙◌, List, [], ◌∷◌, none, some, arith, length,
  get_elem?, set, Option-cases, inl, inr, Distinct,
}
use serix.Base.Map.{keys}
use serix.Fd.{OpenFile, FdTable, get, file, seek, collect, clone_for_task}
use serix.Fd.Clone.{HandlesValid, clone_copies, get-insert_all, insert_all-fresh, file-collect}

some-ne-none {ℓ} : {A : Type ℓ} {a : A} → some a ≢ none
some-ne-none e = cc

module _ {I : Type 0} where
  get_elem?-set_ne :
      (fs : List (OpenFile I)) (i j : ℕ) (f : OpenFile I)
      → i ≢ j
      → get_elem? (set fs i f) j ≡ get_elem? fs j
  get_elem?-set_ne [] i j f h = refl
  get_elem?-set_ne (x ∷ fs) zero zero f h = absurd (h refl)
  get_elem?-set_ne (x ∷ fs) zero (suc j) f h = refl
  get_elem?-set_ne (x ∷ fs) (suc i) zero f h = refl
  get_elem?-set_ne (x ∷ fs) (suc i) (suc j) f h = get_elem?-set_ne fs i j f (λ e. h (ap suc e))

  -- A seek moves no file but the one behind its descriptor.
  file-seek_ne :
      (task fd off t k : ℕ) (s : FdTable I)
      → ((h : ℕ) → get task fd s ≡ some h → get t k s ≢ some h)
      → file t k (seek task fd off s).0 ≡ file t k s
  unfolding seek file
  file-seek_ne task fd off t k s apart = elim (Option-cases (get task fd s)) [
    | inl e ↦ unfold get in ground (arith, e)
    | inr (h, e) ↦ elim (Option-cases (get t k s)) [
      | inl c ↦ unfold get in ground (arith, e, c)
      | inr (j, c) ↦
          let other : h ≢ j = λ q. apart h e (c ∙ ap some (sym q)) in
          elim (Option-cases (get_elem? s.files h)) [
            | inl n ↦ unfold get in ground (arith, e, c, n)
            | inr (f, n) ↦
                unfold get in
                ground
                  (arith, e, c, n, get_elem?-set_ne s.files h j (record f { offset = off }) other)
          ]
    ]
  ]

  handles_apart :
      (src dst k j h : ℕ) (f : OpenFile I) (s : FdTable I)
      → HandlesValid s
      → Distinct (keys s.table)
      → src ≢ dst
      → file src k s ≡ some f
      → get dst k (clone_for_task src dst s) ≡ some h
      → get src j (clone_for_task src dst s) ≢ some h
  unfolding clone_for_task
  handles_apart src dst k j h f s v d ne e p q =
      let es = collect src s.files s.table in
      let low : h < length s.files =
        v.valid src j h (sym (get-insert_all dst src j es s (inl ne)) ∙ q) in
      let high : length s.files ≤ h =
        insert_all-fresh dst k h es s
          (λ z. absurd (some-ne-none (sym e ∙ sym (file-collect src k s d) ∙ z))) p in
      omega arith

  -- When the child moves the cursor of a descriptor that it got from its parent, every descriptor of
  -- the parent keeps its node and its cursor position.
  pub clone_cursors :
      (src dst k j off : ℕ) (f : OpenFile I) (s : FdTable I)
      → HandlesValid s
      → Distinct (keys s.table)
      → src ≢ dst
      → file src k s ≡ some f
      → file src j (seek dst k off (clone_for_task src dst s)).0 ≡ file src j s
  clone_cursors src dst k j off f s v d ne e =
      file-seek_ne dst k off src j (clone_for_task src dst s)
        (λ h p. handles_apart src dst k j h f s v d ne e p)
      ∙ clone_copies src dst src j s v d
      ∙ ground arith
