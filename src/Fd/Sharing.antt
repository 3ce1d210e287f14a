-- ===== src/Fd/Sharing.antt =====
-- Descriptors made by `dup` and `dup2` of kernel/src/fd.rs share one open file, cursor included.
use serix.Base.{
  ℕ, zero, suc, ◌≡◌, ◌≢◌, refl, ap, ◌∙◌, false, List, [], ◌∷◌, some, arith, get_elem?, set,
}
use serix.Base.Map
use serix.Base.Map.{pair_keyed, get-insert, get-remove, pair_same_iff}
use serix.Fd.{OpenFile, FdTable, contains_key, get, file, seek, dup, next_fd}
use serix.Fd.NextFd.{next_fd-Lowest}

not_free :
    (m : List ((ℕ × ℕ) × ℕ)) (task fd r h : ℕ)
    → r ≡ fd
    → Map.get (task, fd) m ≡ some h
    → contains_key (task, r) m ≡ false
    → ⊥
not_free m task fd r h q e c =
    let e' : Map.get (task, r) m ≡ some h = ap (λ k. Map.get (task, k) m) q ∙ e in ground arith

module _ {I : Type 0} where
  get_elem?-set_self :
      (fs : List (OpenFile I)) (h : ℕ) (f g : OpenFile I)
      → get_elem? fs h ≡ some g
      → get_elem? (set fs h f) h ≡ some f
  get_elem?-set_self [] h f g e = cc
  get_elem?-set_self (x ∷ fs) zero f g e = refl
  get_elem?-set_self (x ∷ fs) (suc h) f g e = get_elem?-set_self fs h f g e

  -- After `dup`, the old and the new descriptor are different, name the same file, and a `seek`
  -- through the new one is seen through the old one.
  pub dup_shares :
      (task old_fd off h : ℕ) (f : OpenFile I) (s : FdTable I)
      → get task old_fd s ≡ some h
      → get_elem? s.files h ≡ some f
      → let new_fd = next_fd task s.table in
        let s' = (dup task old_fd s).0 in
        ((dup task old_fd s).1 ≡ some new_fd)
        × (new_fd ≢ old_fd)
        × (file task new_fd s' ≡ some f)
        × (file task old_fd (seek task new_fd off s').0 ≡ some (record f { offset = off }))
  unfolding dup file get seek
  dup_shares task old_fd off h f s e k =
      let new_fd = next_fd task s.table in
      let fresh = (next_fd-Lowest task s.table).free in
      let ne : new_fd ≢ old_fd = λ q. not_free s.table task old_fd new_fd h q e fresh in
      let m = Map.insert (task, new_fd) h s.table in
      let at_new = get-insert (task, new_fd) (task, new_fd) h s.table in
      let at_old = get-insert (task, new_fd) (task, old_fd) h s.table in
      let again = get_elem?-set_self s.files h (record f { offset = off }) f k in
      (ground arith, ne, ground (arith, at_new), ground (arith, at_new, at_old, again))
