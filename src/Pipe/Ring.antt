-- ===== src/Pipe/Ring.antt =====
-- The ring buffer of kernel/src/pipe.rs holds a queue of bytes: what `push` and `pop` do to it.
use serix.Base.{
  ℕ, ◌-◌, ◌≤◌, ◌<◌, ◌≡◌, sym, ap, ap₂, ◌∙◌, List, ◌++◌, arith, min, length, take, drop, length-take,
  take-append_length, drop-append_length,
}
use serix.Circular.{fetch, store, length-store, length-fetch, fetch-add, fetch-shift, fetch-store}
use serix.Pipe.{PipeInner, pipe_bufsz, write_pos, space, push, pop}

pub record IsValid (p : PipeInner) : Type 0 where
  pub storage : length p.buf ≡ pipe_bufsz
  pub position : p.read_pos < pipe_bufsz
  pub bounded : p.count ≤ pipe_bufsz

-- The bytes in the pipe, oldest first.
abbrev pub contents : PipeInner → List ℕ
contents p = fetch pipe_bufsz p.read_pos 0 p.count p.buf

pub length-contents : (p : PipeInner) → length (contents p) ≡ p.count
length-contents p = length-fetch pipe_bufsz p.read_pos 0 p.count p.buf

pub push-IsValid : (p : PipeInner) (src : List ℕ) → IsValid p → IsValid (push p src).0
unfolding push
push-IsValid p src v = record {
  storage = length-store pipe_bufsz (write_pos p) 0 (take (push p src).1 src) p.buf ∙ v.storage;
  position = v.position;
  bounded = omega arith;
}

pub pop-IsValid : (p : PipeInner) (dst : List ℕ) → IsValid p → IsValid (pop p dst).0
unfolding pop
pop-IsValid p dst v = omega arith

pub push-contents :
    (p : PipeInner) (src : List ℕ)
    → IsValid p
    → contents (push p src).0 ≡ contents p ++ take (push p src).1 src
unfolding push
push-contents p src v =
    let n = min (length src) (space p) in
    let e : length (take n src) ≡ n = omega (arith, length-take n src) in
    ap (λ k. fetch pipe_bufsz p.read_pos 0 k (store pipe_bufsz (write_pos p) 0 (take n src) p.buf))
      (omega arith)
    ∙ fetch-store pipe_bufsz p.read_pos p.count 0 (take n src) p.buf (omega arith) (omega arith)
    ∙ ap (λ k. fetch pipe_bufsz p.read_pos 0 k p.buf ++ take n src) (omega arith)

-- Which bytes `pop` takes, and which it leaves.
pub pop-contents :
    (p : PipeInner) (dst : List ℕ)
    → contents p ≡ fetch pipe_bufsz p.read_pos 0 (pop p dst).2 p.buf ++ contents (pop p dst).0
unfolding pop
pop-contents p dst =
    let n = min (length dst) p.count in
    ap (λ k. fetch pipe_bufsz p.read_pos 0 k p.buf) (omega arith)
    ∙ fetch-add pipe_bufsz p.read_pos 0 n (p.count - n) p.buf
    ∙ ap (λ xs. fetch pipe_bufsz p.read_pos 0 n p.buf ++ xs)
        (ap (λ k. fetch pipe_bufsz p.read_pos k (p.count - n) p.buf) (omega arith)
          ∙ sym (fetch-shift pipe_bufsz p.read_pos n 0 (p.count - n) p.buf))

-- `pop` hands out the oldest bytes and keeps the rest.
pub fetch-pop :
    (p : PipeInner) (dst : List ℕ)
    → fetch pipe_bufsz p.read_pos 0 (pop p dst).2 p.buf ≡ take (pop p dst).2 (contents p)
fetch-pop p dst =
    let n = (pop p dst).2 in
    let front = fetch pipe_bufsz p.read_pos 0 n p.buf in
    sym (take-append_length front (contents (pop p dst).0))
    ∙ ap₂ take (length-fetch pipe_bufsz p.read_pos 0 n p.buf) (sym (pop-contents p dst))

pub contents-pop :
    (p : PipeInner) (dst : List ℕ) → contents (pop p dst).0 ≡ drop (pop p dst).2 (contents p)
contents-pop p dst =
    let n = (pop p dst).2 in
    let front = fetch pipe_bufsz p.read_pos 0 n p.buf in
    sym (drop-append_length front (contents (pop p dst).0))
    ∙ ap₂ drop (length-fetch pipe_bufsz p.read_pos 0 n p.buf) (sym (pop-contents p dst))
