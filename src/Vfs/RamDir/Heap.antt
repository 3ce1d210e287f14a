-- ===== src/Vfs/RamDir/Heap.antt =====
-- `create_file` allocates a node that the directory's entry and the caller's handle share.
use serix.Base.{
  ℕ, zero, suc, ◌<◌, ◌≡◌, refl, List, [], ◌∷◌, ◌++◌, some, arith, length, get_elem?, All,
  Bool-cases, inl, inr, subst, some_inj,
}
use serix.Vfs.{file}
use serix.Vfs.Path.{Str, str_eq_refl}
use serix.Vfs.RamFile
use serix.Vfs.RamDir.{
  RamDir, Node, ram_file, lookup, any_child, insert, create, create_file, metadata, list, readdir,
}
use serix.Vfs.RamDir.Entries.{find_child-append}

-- Every entry of the directory is a node of the heap.
abbrev pub Allocated : List Node → RamDir → Type 0
Allocated heap d = All (λ c. c.1 < length heap) d.children

get_elem?-append_here :
    (heap : List Node) (x : Node) → get_elem? (heap ++ x ∷ []) (length heap) ≡ some x
get_elem?-append_here [] x = refl
get_elem?-append_here (y ∷ heap) x = get_elem?-append_here heap x

get_elem?-append_old :
    (heap more : List Node) (i : ℕ)
    → i < length heap
    → get_elem? (heap ++ more) i ≡ get_elem? heap i
get_elem?-append_old [] more i h = absurd (omega arith)
get_elem?-append_old (y ∷ heap) more zero h = refl
get_elem?-append_old (y ∷ heap) more (suc i) h = get_elem?-append_old heap more i (omega arith)

list-append :
    (heap : List Node) (x : Node) (name : Str) (cs : List (Str × ℕ))
    → All (λ c. c.1 < length heap) cs
    → list (heap ++ x ∷ []) (cs ++ (name, length heap) ∷ [])
      ≡ list heap cs ++ (name, metadata x) ∷ []
unfolding list
list-append heap x name [] a = rw (list, get_elem?-append_here heap x) refl
list-append heap x name ((n, i) ∷ cs) a =
    ground (arith, get_elem?-append_old heap (x ∷ []) i a.0, list-append heap x name cs a.1)

-- For any name, directory and heap of nodes that holds the directory's entries, when a file is created
-- then looking the name up gives the handle that was returned, that handle is a new empty file of
-- that name, every node of the heap is as it was, and reading the directory lists what it listed and
-- then the new file.
pub create_file_lem :
    (name : Str) (d : RamDir) (heap : List Node) (r : ℕ × (RamDir × List Node))
    → Allocated heap d
    → create_file name d heap ≡ some r
    → (lookup name r.1.0 ≡ some r.0)
      × ((get_elem? r.1.1 r.0 ≡ some (ram_file (RamFile.new name)))
          × ((r.1.1 ≡ heap ++ ram_file (RamFile.new name) ∷ [])
              × (readdir r.1.1 r.1.0 ≡ readdir heap d ++ (name, file) ∷ [])))
unfolding create_file create insert lookup readdir metadata RamFile.metadata
create_file_lem name d heap r a h =
    let x = ram_file (RamFile.new name) in
    elim (Bool-cases (any_child name d.children)) [
      | inl c ↦ absurd (ground (arith, h, c))
      | inr c ↦
          let e : RamDir = record {
            name = d.name;
            children = d.children ++ (name, length heap) ∷ [];
          } in
          let g : some (length heap, (e, heap ++ x ∷ [])) ≡ some r =
            rw (create_file, create, insert, c) at h in
          let find = find_child-append name name (length heap) d.children c in
          let same = str_eq_refl name in
          subst Created (some_inj g) (
            ground (arith, find, same),
            (get_elem?-append_here heap x, (refl, list-append heap x name d.children a)),
          )
    ]
  where
    Created : ℕ × (RamDir × List Node) → Type 0
    Created r =
        (lookup name r.1.0 ≡ some r.0)
        × ((get_elem? r.1.1 r.0 ≡ some (ram_file (RamFile.new name)))
            × ((r.1.1 ≡ heap ++ ram_file (RamFile.new name) ∷ [])
                × (readdir r.1.1 r.1.0 ≡ readdir heap d ++ (name, file) ∷ [])))
