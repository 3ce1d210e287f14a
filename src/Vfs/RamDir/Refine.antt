-- ===== src/Vfs/RamDir/Refine.antt =====
-- A directory is a partial map from names to nodes.
use serix.Base.{
  ℕ, ◌≡◌, refl, sym, ap, ap₂, ◌∙◌, true, false, List, [], ◌∷◌, ◌++◌, Option, none, some, arith,
  if◌then◌else◌, Option-cases, inl, inr, subst,
}
use serix.Vfs.Path.{Str, str_eq}
use serix.Vfs.RamDir.Entries.{
  Unique, find_child-any, find_child-append, append-Unique, remove_child-Removed, remove_child-none,
  remove_child-some,
}
use serix.Vfs.RamDir.{RamDir, new, find_child, lookup, any_child, insert, remove_child, unlink}

pub data Call : Type 0 where
  looked : Str → Call
  inserted : Str → ℕ → Call
  unlinked : Str → Call

pub data Reply : Type 0 where
  found : Option ℕ → Reply
  ok file_exists not_found : Reply

-- The map that a directory promises to be.
abbrev pub Names : Type 0
Names = Str → Option ℕ

unfoldable pub spec : Names → Call → Names × Reply
spec m (looked name) = (m, found (m name))
spec m (inserted name node) = elim (m name) [
  | none ↦ ((λ k. if str_eq name k then some node else m k), ok)
  | some n ↦ (m, file_exists)
]
spec m (unlinked name) = elim (m name) [
  | none ↦ (m, not_found)
  | some n ↦ ((λ k. if str_eq name k then none else m k), ok)
]

unfoldable pub code : RamDir → Call → RamDir × Reply
code d (looked name) = (d, found (lookup name d))
code d (inserted name node) = elim (insert name node d) [
  | none ↦ (d, file_exists)
  | some e ↦ (e, ok)
]
code d (unlinked name) = elim (unlink name d) [ none ↦ (d, not_found) | some e ↦ (e, ok) ]

unfoldable pub spec_replies : Names → List Call → List Reply
spec_replies m [] = []
spec_replies m (c ∷ cs) = (spec m c).1 ∷ spec_replies (spec m c).0 cs

unfoldable pub replies : RamDir → List Call → List Reply
replies d [] = []
replies d (c ∷ cs) = (code d c).1 ∷ replies (code d c).0 cs

-- The directory holds the map's names, each once.
abbrev Holds : RamDir → Names → Type 0
Holds d m = Unique d.children × ((k : Str) → find_child k d.children ≡ m k)

abbrev Agree : RamDir × Reply → Names × Reply → Type 0
Agree x y = (x.1 ≡ y.1) × Holds x.0 y.0

insert-Agree :
    (d : RamDir) (m : Names) (name : Str) (node : ℕ)
    → Holds d m
    → Agree (code d (inserted name node)) (spec m (inserted name node))
unfolding code spec insert
insert-Agree d m name node h =
    let any = find_child-any name d.children in
    elim (Option-cases (m name)) [
      | inl z ↦
          let no : any_child name d.children ≡ false = ground (arith, any, h.1 name, z) in
          let e : RamDir = record { name = d.name; children = d.children ++ (name, node) ∷ [] } in
          let x : code d (inserted name node) ≡ (e, ok) = rw (code, insert, no) refl in
          let y : spec m (inserted name node)
              ≡ ((λ k. if str_eq name k then some node else m k), ok) =
            rw (spec, z) refl in
          subst (λ v. Agree v (spec m (inserted name node))) (sym x)
            (subst (Agree (e, ok)) (sym y) (
              refl,
              (
                append-Unique name node d.children no h.0,
                λ k. ground (arith, find_child-append k name node d.children no, h.1 k),
              ),
            ))
      | inr (n, z) ↦
          let yes : any_child name d.children ≡ true = ground (arith, any, h.1 name, z) in
          let x : code d (inserted name node) ≡ (d, file_exists) = rw (code, insert, yes) refl in
          let y : spec m (inserted name node) ≡ (m, file_exists) = rw (spec, z) refl in
          subst (λ v. Agree v (spec m (inserted name node))) (sym x)
            (subst (Agree (d, file_exists)) (sym y) (refl, h))
    ]

unlink-Agree :
    (d : RamDir) (m : Names) (name : Str)
    → Holds d m
    → Agree (code d (unlinked name)) (spec m (unlinked name))
unfolding code spec unlink
unlink-Agree d m name h = elim (Option-cases (remove_child name d.children)) [
  | inl z ↦
      let no : m name ≡ none = sym (h.1 name) ∙ remove_child-none name d.children z in
      let x : code d (unlinked name) ≡ (d, not_found) = rw (code, unlink, z) refl in
      let y : spec m (unlinked name) ≡ (m, not_found) = rw (spec, no) refl in
      subst (λ v. Agree v (spec m (unlinked name))) (sym x)
        (subst (Agree (d, not_found)) (sym y) (refl, h))
  | inr (r, z) ↦
      let n = remove_child-some name d.children r z in
      let e : RamDir = record { name = d.name; children = r } in
      let gone = remove_child-Removed name d.children r z h.0 in
      let x : code d (unlinked name) ≡ (e, ok) = rw (code, unlink, z) refl in
      let y : spec m (unlinked name) ≡ ((λ k. if str_eq name k then none else m k), ok) =
        rw (spec, sym (h.1 name) ∙ n.1) refl in
      subst (λ v. Agree v (spec m (unlinked name))) (sym x)
        (subst (Agree (e, ok)) (sym y) (refl, (gone.0, λ k. ground (arith, gone.1 k, h.1 k))))
]

call-Agree : (d : RamDir) (m : Names) (c : Call) → Holds d m → Agree (code d c) (spec m c)
unfolding code spec lookup
call-Agree d m (looked name) h = (ap found (h.1 name), h)
call-Agree d m (inserted name node) h = insert-Agree d m name node h
call-Agree d m (unlinked name) h = unlink-Agree d m name h

replies_refine :
    (cs : List Call) (d : RamDir) (m : Names) → Holds d m → replies d cs ≡ spec_replies m cs
unfolding replies spec_replies
replies_refine [] d m h = refl
replies_refine (c ∷ cs) d m h =
    let a = call-Agree d m c h in ap₂ ◌∷◌ a.0 (replies_refine cs (code d c).0 (spec m c).0 a.1)

-- For a new directory of any name, every sequence of lookups, insertions and unlinks answers as the
-- partial map from names to nodes that is empty at first: an insertion of a name that is bound is
-- refused and changes nothing, an unlink of a name that is not is refused, and a lookup gives the node
-- inserted last and not unlinked since.
pub dir_refines :
    (name : Str) (cs : List Call) → replies (new name) cs ≡ spec_replies (λ k. none) cs
unfolding new find_child
dir_refines name cs = replies_refine cs (new name) (λ k. none) (tt, λ k. refl)
