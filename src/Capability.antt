-- ===== src/Capability.antt =====
-- capability/src/store.rs and types.rs: the store of capabilities under their 128-bit keys, which are
-- lists of bytes. The random numbers behind a new key are not modelled.
mod Tests
use serix.Base.{
  ℕ, ◌≡◌, ◌≢◌, refl, sym, ap, ◌∙◌, Bool, true, false, List, [], ◌∷◌, Option, none, some, arith,
  if◌then◌else◌, All, Option-cases, Bool-cases, inl, inr, subst,
}
use serix.Base.Map
use serix.Base.Map.{Keyed, get-insert, get-remove}
use serix.Vfs.Path.{Str, str_eq, str_eq_iff}

pub data CapabilityType : Type 0 where
  task memory_region io_device file_descriptor : CapabilityType

pub record CapabilityHandle : Type 0 where
  pub key : List ℕ

pub record Capability : Type 0 where
  pub cap_type : CapabilityType
  pub handle : CapabilityHandle

instance abbrev pub key_keyed : Keyed (List ℕ)
key_keyed = record { same = str_eq; same_iff = str_eq_iff }

abbrev pub CapabilityStore : Type 0
CapabilityStore = List (List ℕ × Capability)

unfoldable pub add_capability : Capability → CapabilityStore → CapabilityStore × Bool
add_capability c s = elim (Map.get c.handle.key s) [
  | some old ↦ (s, false)
  | none ↦ (Map.insert c.handle.key c s, true)
]

unfoldable pub get_capability : List ℕ → CapabilityStore → Option Capability
get_capability key s = Map.get key s

unfoldable pub remove_capability : List ℕ → CapabilityStore → CapabilityStore × Bool
remove_capability key s = (Map.remove key s, elim (Map.get key s) [ none ↦ false | some c ↦ true ])

pub data Call : Type 0 where
  added : Capability → Call
  removed : List ℕ → Call

unfoldable pub call : CapabilityStore → Call → CapabilityStore
call s (added c) = (add_capability c s).0
call s (removed key) = (remove_capability key s).0

unfoldable pub run : CapabilityStore → List Call → CapabilityStore
run s [] = s
run s (c ∷ cs) = run (call s c) cs

-- Whether a call removes the key.
unfoldable pub removes : List ℕ → Call → Bool
removes key (added c) = false
removes key (removed k) = str_eq k key

call-keeps :
    (s : CapabilityStore) (key : List ℕ) (c : Capability) (x : Call)
    → get_capability key s ≡ some c
    → removes key x ≡ false
    → get_capability key (call s x) ≡ some c
unfolding get_capability call add_capability remove_capability removes
call-keeps s key c (added d) h n = elim (Option-cases (Map.get d.handle.key s)) [
  | inl z ↦
      let q : call s (added d) ≡ Map.insert d.handle.key d s = rw (call, add_capability, z) refl in
      let g = get-insert d.handle.key key d s in
      elim (Bool-cases (str_eq d.handle.key key)) [
        | inl e ↦
            let same = (str_eq_iff d.handle.key key).0 e in
            absurd (ground (arith, ap (λ k. Map.get k s) same, z, h))
        | inr e ↦ ap (Map.get key) q ∙ ground (arith, g, e, h)
      ]
  | inr (old, z) ↦
      let q : call s (added d) ≡ s = rw (call, add_capability, z) refl in ap (Map.get key) q ∙ h
]
call-keeps s key c (removed k) h n = ground (arith, get-remove k key s, n, h)

-- A capability that a key names stays what the key names through every sequence of additions and of
-- removals of other keys: adding another capability under the same key never replaces it.
pub run-keeps :
    (cs : List Call) (s : CapabilityStore) (key : List ℕ) (c : Capability)
    → get_capability key s ≡ some c
    → All (λ x. removes key x ≡ false) cs
    → get_capability key (run s cs) ≡ some c
unfolding run
run-keeps [] s key c h a = h
run-keeps (x ∷ cs) s key c h a = run-keeps cs (call s x) key c (call-keeps s key c x h a.0) a.1

-- For any store, after an addition the key names the capability it named before, or the added one if it
-- named none, in which case the addition answers true; after a removal it names none; and a removal
-- answers whether the key named one.
pub add-remove_capability :
    (c : Capability) (s : CapabilityStore)
    → (get_capability c.handle.key (add_capability c s).0
        ≡ elim (get_capability c.handle.key s) [ none ↦ some c | some old ↦ some old ])
      × ((get_capability c.handle.key (remove_capability c.handle.key (add_capability c s).0).0
            ≡ none)
          × ((remove_capability c.handle.key (add_capability c s).0).1 ≡ true))
unfolding get_capability add_capability remove_capability
add-remove_capability c s =
    let same = (str_eq_iff c.handle.key c.handle.key).1 refl in
    let i = get-insert c.handle.key c.handle.key c s in
    let r = get-remove c.handle.key c.handle.key (add_capability c s).0 in
    elim (Option-cases (Map.get c.handle.key s)) [
      | inl z ↦ (ground (arith, z, same, i), (ground (arith, r, same), ground (arith, z, same, i)))
      | inr (old, z) ↦ (ground (arith, z), (ground (arith, r, same), ground (arith, z)))
    ]
