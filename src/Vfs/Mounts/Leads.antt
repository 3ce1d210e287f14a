-- ===== src/Vfs/Mounts/Leads.antt =====
-- Which paths lead to a mount point and leave nothing to walk: its two spellings, with and without the
-- slash behind it.
use serix.Base.{
  ◌≤◌, ◌≡◌, ◌⊎◌, refl, sym, ap, ◌∙◌, true, false, [], ◌∷◌, ◌++◌, none, some, arith, length,
  length-append, Bool-cases, inl, inr, subst, ◌==◌,
}
use serix.Vfs.Path.{
  Str, root, str_eq, str_eq_iff, str_eq_refl, is_empty, trim_end, trim_end-trim_end, trim_end-slash,
  trim_start, strip_prefix, starts_with,
}
use serix.Vfs.Mounts.{holds, remainder}

-- A prefix is no longer than the path, and is the path where it is as long.
starts_with_bound :
    (s pre : Str)
    → starts_with s pre ≡ true
    → (length pre ≤ length s) × (length pre ≡ length s → pre ≡ s)
unfolding starts_with strip_prefix
starts_with_bound [] [] h = (omega arith, λ e. refl)
starts_with_bound (x ∷ s) [] h = (omega arith, λ e. absurd (omega (arith, e)))
starts_with_bound [] (y ∷ pre) h = absurd (ground (arith, h))
starts_with_bound (x ∷ s) (y ∷ pre) h = elim (Bool-cases (y == x)) [
  | inl c ↦
      let g : starts_with s pre ≡ true = ground (arith, h, c) in
      let ih = starts_with_bound s pre g in
      (omega (arith, ih.0), λ e. ground (arith, c, ih.1 (omega (arith, e))))
  | inr c ↦ absurd (ground (arith, h, c))
]

strip_prefix_refl : (s : Str) → strip_prefix s s ≡ some []
unfolding strip_prefix
strip_prefix_refl [] = refl
strip_prefix_refl (x ∷ s) = ground (arith, strip_prefix_refl s)

strip_prefix-longer : (s : Str) → strip_prefix (s ++ root) s ≡ none
unfolding strip_prefix
strip_prefix-longer [] = refl
strip_prefix-longer (x ∷ s) = ground (arith, strip_prefix-longer s)

-- `path` leads to the mount at `key`: that mount holds it, no longer mount does, no other as long,
-- and nothing is left to walk.
abbrev pub Leads : Str → Str → Type 0
Leads path key =
    (holds path key ≡ true)
    × (((mp : Str)
          → mp ≡ trim_end mp ++ root
          → holds path mp ≡ true
          → (length mp ≤ length key) × (length mp ≡ length key → mp ≡ key))
        × (is_empty (remainder path key) ≡ true))

starts_with_refl : (s : Str) → starts_with s s ≡ true
unfolding starts_with
starts_with_refl s = ground (arith, strip_prefix_refl s)

is_empty_of_length : (s : Str) → length s ≤ 0 → is_empty s ≡ true
unfolding is_empty
is_empty_of_length [] h = refl
is_empty_of_length (x ∷ s) h = absurd (omega arith)

is_empty→nil : (s : Str) → length s ≤ 0 → s ≡ []
is_empty→nil [] h = refl
is_empty→nil (x ∷ s) h = absurd (omega arith)

holds-cases :
    (path mp : Str)
    → holds path mp ≡ true
    → (mp ≡ root) ⊎ ((path ≡ trim_end mp) ⊎ (starts_with path mp ≡ true))
unfolding holds
holds-cases path mp h = elim (Bool-cases (str_eq mp root)) [
  | inl c ↦ inl ((str_eq_iff mp root).0 c)
  | inr c ↦ elim (Bool-cases (str_eq path (trim_end mp))) [
    | inl d ↦ inr (inl ((str_eq_iff path (trim_end mp)).0 d))
    | inr d ↦ inr (inr (ground (arith, h, c, d)))
  ]
]

-- Of a trimmed path and the slash behind it, the slash is trimmed.
trim_end-key : (b : Str) → trim_end b ≡ b → trim_end (b ++ root) ≡ b
trim_end-key b n = ap (λ s. trim_end (s ++ root)) (sym n) ∙ trim_end-slash b ∙ n

key_Leads_self : (b : Str) → holds (b ++ root) (b ++ root) ≡ true
unfolding holds
key_Leads_self b =
    let key = b ++ root in
    elim (Bool-cases (str_eq key root)) [
      | inl c ↦ let q = (str_eq_iff key root).0 c in rw c (rw q (starts_with_refl root))
      | inr c ↦ ground (arith, c, starts_with_refl key)
    ]

key_remainder : (b : Str) → is_empty (remainder (b ++ root) (b ++ root)) ≡ true
unfolding remainder trim_start is_empty str_eq
key_remainder b =
    let key = b ++ root in
    elim (Bool-cases (str_eq key root)) [
      | inl c ↦
          let q = (str_eq_iff key root).0 c in
          subst (λ k. is_empty (remainder k k) ≡ true) (sym q) refl
      | inr c ↦ rw (remainder, c, strip_prefix_refl key) refl
    ]

pub key-Leads : (b : Str) → trim_end b ≡ b → Leads (b ++ root) (b ++ root)
unfolding remainder
key-Leads b n =
    let key = b ++ root in
    let pre = strip_prefix_refl key in
    let trimmed = trim_end-key b n in
    let len = length-append b root in
    let bound : (mp : Str)
        → mp ≡ trim_end mp ++ root
        → holds key mp ≡ true
        → (length mp ≤ length key) × (length mp ≡ length key → mp ≡ key) =
      λ mp m h. elim (holds-cases key mp h) [
        | inl q ↦
            let l = ap length q in
            (
              omega (arith, l, len),
              λ e. q ∙ ap (λ s. s ++ root) (sym (is_empty→nil b (omega (arith, l, len, e)))),
            )
        | inr (inl q) ↦
            let t : b ≡ key = sym trimmed ∙ ap trim_end q ∙ trim_end-trim_end mp ∙ sym q in
            let l = ap length t in absurd (omega (arith, len, l))
        | inr (inr w) ↦ starts_with_bound key mp w
      ] in
    (key_Leads_self b, (bound, key_remainder b))

pub bare-Leads : (b : Str) → trim_end b ≡ b → is_empty b ≡ false → Leads b (b ++ root)
unfolding holds remainder trim_start is_empty
bare-Leads b n ne =
    let key = b ++ root in
    let trimmed = trim_end-key b n in
    let len = length-append b root in
    let not_root : str_eq key root ≡ false = elim (Bool-cases (str_eq key root)) [
      | inl c ↦
          let l = ap length ((str_eq_iff key root).0 c) in
          let z = is_empty_of_length b (omega (arith, l, len)) in absurd (ground (arith, z, ne))
      | inr c ↦ c
    ] in
    let bound : (mp : Str)
        → mp ≡ trim_end mp ++ root
        → holds b mp ≡ true
        → (length mp ≤ length key) × (length mp ≡ length key → mp ≡ key) =
      λ mp m h. elim (holds-cases b mp h) [
        | inl q ↦
            let l = ap length q in
            (
              omega (arith, l, len),
              λ e. q ∙ ap (λ s. s ++ root) (sym (is_empty→nil b (omega (arith, l, len, e)))),
            )
        | inr (inl q) ↦
            let t : mp ≡ key = m ∙ ap (λ s. s ++ root) (sym q) in
            let l = ap length t in (omega (arith, l), λ e. t)
        | inr (inr w) ↦
            let p = starts_with_bound b mp w in
            (omega (arith, p.0, len), λ e. absurd (omega (arith, p.0, len, e)))
      ] in
    (
      ground (arith, not_root, trimmed, str_eq_refl b),
      (bound, rw (remainder, not_root, strip_prefix-longer b) refl),
    )
