-- ===== src/Pipe/Wakeup.antt =====
-- Blocked readers of a pipe of kernel/src/pipe.rs: nobody sleeps beside bytes or an end of file.
use serix.Base.{
  ℕ, ◌≡◌, ◌⊎◌, refl, sym, ap, ◌∙◌, subst, inl, true, false, List, [], ◌∷◌, ◌++◌, arith,
  if◌then◌else◌, append_assoc,
}
use serix.Pipe.{PipeInner, elem, join, read_round, write, drop_read_end, drop_write_end}
use serix.Pipe.Channel.{Call, Reply, waits, wrote, dropped, code, run}
use serix.Pipe.Channel

-- The tasks of a list that are not among others.
unfoldable pub without : List ℕ → List ℕ → List ℕ
without ws [] = []
without ws (t ∷ ts) = let rest = without ws ts in if elem t ws then rest else t ∷ rest

-- The tasks asleep after a call, by its reply alone: one that was told to wait goes to sleep, and those
-- that the call woke are not asleep any more.
unfoldable pub sleepers : List ℕ → Call → Reply → List ℕ
sleepers ts (Channel.reads cur dst) waits = join cur ts
sleepers ts c (wrote n woken) = without woken ts
sleepers ts c (dropped woken) = without woken ts
sleepers ts c r = ts

unfoldable pub run_sleepers : List ℕ → List Call → List Reply → List ℕ
run_sleepers ts (c ∷ cs) (r ∷ rs) = run_sleepers (sleepers ts c r) cs rs
run_sleepers ts cs rs = ts

elem-append_here : (pre ts : List ℕ) (t : ℕ) → elem t (pre ++ t ∷ ts) ≡ true
elem-append_here [] ts t = ground arith
elem-append_here (x ∷ pre) ts t = ground (arith, elem-append_here pre ts t)

without-all_from : (pre ts : List ℕ) → without (pre ++ ts) ts ≡ []
unfolding without
without-all_from pre [] = refl
without-all_from pre (t ∷ ts) =
    let e = append_assoc pre (t ∷ []) ts in
    let rest = subst (λ ws. without ws ts ≡ []) e (without-all_from (pre ++ t ∷ []) ts) in
    rw (elem-append_here pre ts t) rest

without-all : (ts : List ℕ) → without ts ts ≡ []
without-all ts = without-all_from [] ts

without-none : (ts : List ℕ) → without [] ts ≡ ts
unfolding without
without-none [] = refl
without-none (t ∷ ts) = ap (◌∷◌ t) (without-none ts)

-- The tasks that wait are those asleep, and none is beside bytes or an end of file.
abbrev pub NoLostWakeup : PipeInner → List ℕ → Type 0
NoLostWakeup p ts = (ts ≡ p.waiters) × ((ts ≡ []) ⊎ ((p.count ≡ 0) × (p.write_closed ≡ false)))

code-sleepers :
    (p : PipeInner) (c : Call) → sleepers p.waiters c (code p c).1 ≡ (code p c).0.waiters
unfolding code sleepers read_round write drop_read_end drop_write_end
code-sleepers p (Channel.reads cur dst) = ground arith
code-sleepers p (Channel.writes src) = ground (arith, without-all p.waiters, without-none p.waiters)
code-sleepers p Channel.drops_reader = without-none p.waiters
code-sleepers p Channel.drops_writer = without-all p.waiters

code-calm :
    (p : PipeInner) (c : Call)
    → (p.waiters ≡ []) ⊎ ((p.count ≡ 0) × (p.write_closed ≡ false))
    → let p' = (code p c).0 in (p'.waiters ≡ []) ⊎ ((p'.count ≡ 0) × (p'.write_closed ≡ false))
unfolding code
code-calm p (Channel.reads cur dst) h = ground arith
code-calm p (Channel.writes src) h = ground arith
code-calm p Channel.drops_reader h = ground arith
code-calm p Channel.drops_writer h = inl refl

code-NoLostWakeup :
    (p : PipeInner) (ts : List ℕ) (c : Call)
    → NoLostWakeup p ts
    → NoLostWakeup (code p c).0 (sleepers ts c (code p c).1)
code-NoLostWakeup p ts c h =
    let e = ap (λ l. sleepers l c (code p c).1) h.0 ∙ code-sleepers p c in
    let calm =
      code-calm p c (subst (λ l. (l ≡ []) ⊎ ((p.count ≡ 0) × (p.write_closed ≡ false))) h.0 h.1) in
    (
      e,
      subst (λ l. (l ≡ []) ⊎ (((code p c).0.count ≡ 0) × ((code p c).0.write_closed ≡ false)))
          (sym e) calm,
    )

-- Along every sequence of calls from a state in which the tasks asleep are those on the wait list: the
-- tasks that were told to wait and that no call has woken since are still those on the wait list, and
-- while there is one, the buffer is empty and the write end is open.
pub run-NoLostWakeup :
    (p : PipeInner) (ts : List ℕ) (cs : List Call)
    → NoLostWakeup p ts
    → NoLostWakeup (run p cs).0 (run_sleepers ts cs (run p cs).1)
unfolding run run_sleepers
run-NoLostWakeup p ts [] h = h
run-NoLostWakeup p ts (c ∷ cs) h =
    run-NoLostWakeup (code p c).0 (sleepers ts c (code p c).1) cs (code-NoLostWakeup p ts c h)
