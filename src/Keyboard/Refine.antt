-- ===== src/Keyboard/Refine.antt =====
-- The keyboard's buffer is a queue of at most 127 keys that drops what does not fit.
use serix.Base.{
  ℕ, suc, ◌+◌, ◌-◌, ◌%◌, ◌<◌, ◌≡◌, refl, sym, ap, ap₂, ◌∙◌, bit_and, not, List, [], ◌∷◌, ◌++◌,
  Option, none, some, arith, if◌then◌else◌, ◌==◌, ltb, length, get_elem?, get_or, set, length-set,
  Bool-cases, Option-cases, inl, inr, subst,
}
use serix.Circular.{fetch, length-fetch, fetch-shift, fetch-set}
use serix.Keyboard.{RingBuffer, buf_size, scancode_to_ascii, push, pop, handle_scancode, pop_key}

pub record IsValid (r : RingBuffer) : Type 0 where
  pub storage : length r.bytes ≡ buf_size
  pub write_index : r.head < buf_size
  pub read_index : r.tail < buf_size

abbrev pub count : RingBuffer → ℕ
count r = (r.head + buf_size - r.tail) % buf_size

-- The keys in the buffer, oldest first.
abbrev pub contents : RingBuffer → List ℕ
contents r = fetch buf_size r.tail 0 (count r) r.bytes

-- The key that a scancode stands for, if it is a press of a key with a character.
unfoldable pub key_of : ℕ → Option ℕ
key_of scancode =
    if not (bit_and scancode 128 == 0) then none else elim (get_elem? scancode_to_ascii scancode) [
      | none ↦ none
      | some ascii ↦ if ascii == 0 then none else some ascii
    ]

-- A queue with room for 127 keys.
unfoldable pub offer : ℕ → List ℕ → List ℕ
offer key q = if ltb (length q) 127 then q ++ key ∷ [] else q

pub data Event : Type 0 where
  scanned : ℕ → Event
  asked : Event

unfoldable pub spec : List ℕ → Event → List ℕ × Option ℕ
unfolding offer
spec q (scanned s) = elim (key_of s) [ none ↦ (q, none) | some key ↦ (offer key q, none) ]
spec [] asked = ([], none)
spec (key ∷ q) asked = (q, some key)

unfoldable pub code : RingBuffer → Event → RingBuffer × Option ℕ
code r (scanned s) = (handle_scancode s r, none)
code r asked = pop_key r

unfoldable pub spec_answers : List ℕ → List Event → List (Option ℕ)
spec_answers q [] = []
spec_answers q (e ∷ es) = (spec q e).1 ∷ spec_answers (spec q e).0 es

unfoldable pub answers : RingBuffer → List Event → List (Option ℕ)
answers r [] = []
answers r (e ∷ es) = (code r e).1 ∷ answers (code r e).0 es

abbrev Holds : RingBuffer → List ℕ → Type 0
Holds r q = IsValid r × (contents r ≡ q)

push-Holds : (r : RingBuffer) (key : ℕ) → IsValid r → Holds (push key r) (offer key (contents r))
unfolding push offer
push-Holds r key v =
    let n = count r in
    let l = length-fetch buf_size r.tail 0 n r.bytes in
    elim (Bool-cases (ltb n 127)) [
      | inl c ↦
          let t : RingBuffer = record {
            bytes = set r.bytes r.head key;
            head = (r.head + 1) % buf_size;
            tail = r.tail;
          } in
          let p : push key r ≡ t = ground (arith, c, v.write_index, v.read_index) in
          let o : offer key (contents r) ≡ contents r ++ key ∷ [] = ground (arith, l, c) in
          let at : r.head ≡ (r.tail + (0 + n)) % buf_size =
            omega (arith, v.write_index, v.read_index) in
          let m : count t ≡ suc n = ground (arith, c, v.write_index, v.read_index) in
          let f =
            fetch-set buf_size r.tail 0 n key r.bytes (omega (arith, v.storage))
              (ground (arith, c)) in
          let e : contents t ≡ contents r ++ key ∷ [] =
            ap₂ (λ k j. fetch buf_size r.tail 0 k (set r.bytes j key)) m at ∙ f in
          let w : IsValid t = record {
            storage = length-set r.bytes r.head key ∙ v.storage;
            write_index = omega arith;
            read_index = v.read_index;
          } in
          subst (λ x. Holds x (offer key (contents r))) (sym p) (w, e ∙ sym o)
      | inr c ↦
          let p : push key r ≡ r = ground (arith, c, v.write_index, v.read_index) in
          let o : offer key (contents r) ≡ contents r = ground (arith, l, c) in
          subst (λ x. Holds x (offer key (contents r))) (sym p) (v, sym o)
    ]

scan-Holds :
    (r : RingBuffer) (s : ℕ)
    → IsValid r
    → Holds (handle_scancode s r) (spec (contents r) (scanned s)).0
unfolding handle_scancode spec key_of
scan-Holds r s v = elim (Bool-cases (bit_and s 128 == 0)) [
  | inr b ↦
      let p : handle_scancode s r ≡ r = rw (handle_scancode, b) refl in
      let q : (spec (contents r) (scanned s)).0 ≡ contents r = rw (spec, key_of, b) refl in
      joined r (contents r) p q (v, refl)
  | inl b ↦ elim (Option-cases (get_elem? scancode_to_ascii s)) [
    | inl n ↦
        let p : handle_scancode s r ≡ r = rw (handle_scancode, b, n) refl in
        let q : (spec (contents r) (scanned s)).0 ≡ contents r = rw (spec, key_of, b, n) refl in
        joined r (contents r) p q (v, refl)
    | inr (a, n) ↦ elim (Bool-cases (a == 0)) [
      | inl z ↦
          let p : handle_scancode s r ≡ r = rw (handle_scancode, b, n, z) refl in
          let q : (spec (contents r) (scanned s)).0 ≡ contents r =
            rw (spec, key_of, b, n, z) refl in
          joined r (contents r) p q (v, refl)
      | inr z ↦
          let p : handle_scancode s r ≡ push a r = rw (handle_scancode, b, n, z) refl in
          let q : (spec (contents r) (scanned s)).0 ≡ offer a (contents r) =
            rw (spec, key_of, b, n, z) refl in
          joined (push a r) (offer a (contents r)) p q (push-Holds r a v)
    ]
  ]
]
  where
    joined :
        (x : RingBuffer) (y : List ℕ)
        → handle_scancode s r ≡ x
        → (spec (contents r) (scanned s)).0 ≡ y
        → Holds x y
        → Holds (handle_scancode s r) (spec (contents r) (scanned s)).0
    joined x y p q h =
        subst (λ u. Holds u (spec (contents r) (scanned s)).0) (sym p) (subst (Holds x) (sym q) h)

abbrev Answers : RingBuffer × Option ℕ → List ℕ × Option ℕ → Type 0
Answers x y = (x.1 ≡ y.1) × Holds x.0 y.0

pop-Answers : (r : RingBuffer) → IsValid r → Answers (code r asked) (spec (contents r) asked)
unfolding code pop_key pop spec fetch
pop-Answers r v = elim (Bool-cases (r.head == r.tail)) [
  | inl c ↦
      let n : count r ≡ 0 = ground (arith, c, v.read_index) in
      let q : contents r ≡ [] = ap (λ k. fetch buf_size r.tail 0 k r.bytes) n in
      let p : code r asked ≡ (r, none) = rw (code, pop_key, pop, c) refl in
      subst (λ x. Answers x (spec (contents r) asked)) (sym p)
        (subst (λ q. Answers (r, none) (spec q asked)) (sym q) (refl, (v, q)))
  | inr c ↦
      let t : RingBuffer = record {
        bytes = r.bytes;
        head = r.head;
        tail = (r.tail + 1) % buf_size;
      } in
      let n : count r ≡ suc (count t) = ground (arith, c, v.write_index, v.read_index) in
      let at : (r.tail + 0) % buf_size ≡ r.tail = omega (arith, v.read_index) in
      let q : contents r ≡ get_or r.bytes r.tail 0 ∷ contents t =
        ap (λ k. fetch buf_size r.tail 0 k r.bytes) n
        ∙ ap₂ ◌∷◌ (ap (λ i. get_or r.bytes i 0) at)
            (sym (fetch-shift buf_size r.tail 1 0 (count t) r.bytes)) in
      let p : code r asked ≡ (t, some (get_or r.bytes r.tail 0)) =
        rw (code, pop_key, pop, c) refl in
      let w : IsValid t = record {
        storage = v.storage;
        write_index = v.write_index;
        read_index = omega arith;
      } in
      subst (λ x. Answers x (spec (contents r) asked)) (sym p)
        (subst (λ q. Answers (t, some (get_or r.bytes r.tail 0)) (spec q asked)) (sym q)
          (refl, (w, refl)))
]

scan_answer : (q : List ℕ) (s : ℕ) → none ≡ (spec q (scanned s)).1
unfolding spec
scan_answer q s = elim (Option-cases (key_of s)) [
  | inl n ↦ rw (spec, n) refl
  | inr (k, n) ↦ rw (spec, n) refl
]

code-Answers : (r : RingBuffer) (e : Event) → IsValid r → Answers (code r e) (spec (contents r) e)
unfolding code
code-Answers r (scanned s) v = (scan_answer (contents r) s, scan-Holds r s v)
code-Answers r asked v = pop-Answers r v

-- From any valid buffer, every sequence of scancodes and requests for a key is answered as by a queue
-- that starts with the keys in the buffer and has room for 127: the press of a key with a character
-- joins the queue when there is room and is dropped when there is none, other scancodes change
-- nothing, and a request gets the oldest key, if there is one.
pub answers_refine :
    (es : List Event) (r : RingBuffer) → IsValid r → answers r es ≡ spec_answers (contents r) es
unfolding answers spec_answers
answers_refine [] r v = refl
answers_refine (e ∷ es) r v =
    let a = code-Answers r e v in
    ap₂ ◌∷◌ a.0 (answers_refine es (code r e).0 a.1.0 ∙ ap (λ q. spec_answers q es) a.1.1)
