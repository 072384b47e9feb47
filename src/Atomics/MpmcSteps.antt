-- ===== src/Atomics/MpmcSteps.antt =====
-- What holds between the steps of MpmcStack, and what its operations do (ase/atomics.hh).
use anklang.Prelude.{
  ℕ, suc, ◌^◌, ◌≤◌, ◌<◌, ◌≡◌, refl, sym, ◌∙◌, ◌≢◌, inl, inr, List, [], ◌∷◌, arith,
}
use anklang.Atomics.Stack.{at_pc, Without, Apart}
use anklang.Atomics.Apart.{Apart-cons}
use anklang.Atomics.Steps.{at_pc-each, at_pc-Apart}
use anklang.Atomics.MpmcChain.{
  Chain, IsIn, IsDistinct, write_self, write_other, Without-IsIn, Chain-write, Apart-behind,
  head-content,
}
use anklang.Atomics.Mpmc.{
  Ref, null, node, write, Pc, idle, linking, pushing, reading, popping, clearing, owned, State,
  SameCounter, behind_first, Event, Step, push_load, push_link, push_swap, push_retry, pop_load,
  pop_tail, pop_read, pop_swap, pop_retry, pop_retry_tail, pop_clear,
}

-- What a thread relies on: as long as no node was popped, the one that it wants to pop is in the stack.
abbrev Ready : State → Pc → Type 0
Ready s idle = Unit
Ready s (linking n r c) = Unit
Ready s (pushing n r c) = s.intr n ≡ r
Ready s (reading n c) = (c ≤ s.pops) × (c ≡ s.pops → IsIn n s.content)
Ready s (popping n r c) = (c ≤ s.pops) × (c ≡ s.pops → IsIn n s.content × (s.intr n ≡ r))
Ready s (clearing n) = Unit

pub record IsValid (s : State) : Type 0 where
  pub chain : Chain s.intr s.head s.content
  pub distinct : IsDistinct s.content
  pub held : (t : ℕ) → Apart (owned (s.pc t)) s.content
  pub apart : (t u : ℕ) → t ≢ u → Apart (owned (s.pc t)) (owned (s.pc u))
  pub ready : (t : ℕ) → Ready s (s.pc t)

-- A step that only moves a thread on
move :
    (s : State) (t : ℕ) (k : Pc)
    → IsValid s
    → Ready s k
    → Apart (owned k) s.content
    → ((u : ℕ) → u ≢ t → Apart (owned k) (owned (s.pc u)))
    → IsValid (record s { pc = at_pc s.pc t k })
move s t k v r h a = record {
  chain = v.chain;
  distinct = v.distinct;
  held = at_pc-each (λ u p. Apart (owned p) s.content) s.pc t k h (λ u n. v.held u);
  apart = at_pc-Apart owned s.pc t k v.apart a;
  ready = at_pc-each (λ u p. Ready s p) s.pc t k r (λ u n. v.ready u);
}

Ready-write :
    (s : State) (p : ℕ → Pc) (n : ℕ) (x : Ref) (k : Pc)
    → Without n s.content
    → Without n (owned k)
    → Ready s k
    → Ready (record s { intr = write s.intr n x; pc = p }) k
Ready-write s p n x idle w o r = tt
Ready-write s p n x (linking m q c) w o r = tt
Ready-write s p n x (pushing m q c) w o r = write_other s.intr n m x o.0 ∙ r
Ready-write s p n x (reading m c) w o r = r
Ready-write s p n x (popping m q c) w o r = (
  r.0,
  λ e. ((r.1 e).0, write_other s.intr n m x (Without-IsIn n m s.content w (r.1 e).0) ∙ (r.1 e).1),
)
Ready-write s p n x (clearing m) w o r = tt

-- A thread writes to the node that it owns.
write_step :
    (s : State) (t n : ℕ) (x : Ref) (k : Pc)
    → IsValid s
    → owned (s.pc t) ≡ n ∷ []
    → Ready (record s { intr = write s.intr n x; pc = at_pc s.pc t k }) k
    → Apart (owned k) s.content
    → ((u : ℕ) → u ≢ t → Apart (owned k) (owned (s.pc u)))
    → IsValid (record s { intr = write s.intr n x; pc = at_pc s.pc t k })
write_step s t n x k v o r h a =
    let own : Without n s.content = (rw o at (v.held t)).0 in
    record {
      chain = Chain-write s.intr n x s.head s.content own v.chain;
      distinct = v.distinct;
      held = at_pc-each (λ u p. Apart (owned p) s.content) s.pc t k h (λ u m. v.held u);
      apart = at_pc-Apart owned s.pc t k v.apart a;
      ready =
          at_pc-each (λ u p. Ready (record s { intr = write s.intr n x; pc = at_pc s.pc t k }) p)
            s.pc t k r
            (λ u m.
              Ready-write s (at_pc s.pc t k) n x (s.pc u) own
                (rw o at (v.apart t u (λ e. m (sym e)))).0 (v.ready u));
    }

Ready-push :
    (s : State) (p : ℕ → Pc) (n : ℕ) (h : Ref) (k : Pc)
    → Ready s k
    → Ready (record s { head = h; pc = p; content = n ∷ s.content }) k
Ready-push s p n h idle r = tt
Ready-push s p n h (linking m q c) r = tt
Ready-push s p n h (pushing m q c) r = r
Ready-push s p n h (reading m c) r = (r.0, λ e. inr (r.1 e))
Ready-push s p n h (popping m q c) r = (r.0, λ e. (inr (r.1 e).0, (r.1 e).1))
Ready-push s p n h (clearing m) r = tt

push_step :
    (s : State) (t n : ℕ) (r : Ref) (c : ℕ)
    → s.pc t ≡ pushing n r c
    → s.head ≡ r
    → IsValid s
    → IsValid (record s { head = node n; pc = at_pc s.pc t idle; content = n ∷ s.content })
push_step s t n r c p h v =
    let own : Without n s.content = (rw p at (v.held t)).0 in
    let below : s.intr n ≡ s.head = rw p at (v.ready t) ∙ sym h in
    record {
      chain = (refl, rw below (v.chain));
      distinct = (own, v.distinct);
      held =
          at_pc-each (λ u q. Apart (owned q) (n ∷ s.content)) s.pc t idle tt
            (λ u m.
              Apart-cons (owned (s.pc u)) s.content n (v.held u)
                (rw p at (v.apart t u (λ e. m (sym e)))).0);
      apart = at_pc-Apart owned s.pc t idle v.apart (λ u m. tt);
      ready =
          at_pc-each
            (λ u q.
              Ready (record s { head = node n; pc = at_pc s.pc t idle; content = n ∷ s.content }) q)
            s.pc t idle tt
            (λ u m. Ready-push s (at_pc s.pc t idle) n (node n) (s.pc u) (v.ready u));
    }

Ready-pop :
    (s : State) (p : ℕ → Pc) (h : Ref) (xs : List ℕ) (k : Pc)
    → Ready s k
    → Ready (record s { head = h; pops = suc s.pops; pc = p; content = xs }) k
Ready-pop s p h xs idle r = tt
Ready-pop s p h xs (linking m q c) r = tt
Ready-pop s p h xs (pushing m q c) r = r
Ready-pop s p h xs (reading m c) r = (omega (arith, r.0), λ e. absurd (omega (arith, e, r.0)))
Ready-pop s p h xs (popping m q c) r = (omega (arith, r.0), λ e. absurd (omega (arith, e, r.0)))
Ready-pop s p h xs (clearing m) r = tt

pop_step :
    (s : State) (t n : ℕ) (r : Ref) (c : ℕ)
    → s.pc t ≡ popping n r c
    → s.head ≡ node n
    → SameCounter s.pops c
    → s.pops < 2 ^ 64
    → IsValid s
    → IsValid (record s {
      head = r;
      pops = suc s.pops;
      pc = at_pc s.pc t (clearing n);
      content = behind_first s.content;
    })
pop_step s t n r c p h same few v =
    let relied : (c ≤ s.pops) × (c ≡ s.pops → IsIn n s.content × (s.intr n ≡ r)) =
      rw p at (v.ready t) in
    let now : c ≡ s.pops = omega (arith, same, few, relied.0) in
    let linked = (relied.1 now).1 in
    let first = head-content s.intr s.head n s.content v.chain h in
    let xs = behind_first s.content in
    let chained : Chain s.intr s.head (n ∷ xs) = rw first at (v.chain) in
    let distinct : IsDistinct (n ∷ xs) = rw first at (v.distinct) in
    let apart : (u : ℕ) → Apart (owned (s.pc u)) xs × Without n (owned (s.pc u)) =
      λ u. Apart-behind (owned (s.pc u)) xs n (rw first at (v.held u)) in
    record {
      chain = rw linked at (chained.1);
      distinct = distinct.1;
      held =
          at_pc-each (λ u q. Apart (owned q) xs) s.pc t (clearing n) (distinct.0, tt)
            (λ u m. (apart u).0);
      apart = at_pc-Apart owned s.pc t (clearing n) v.apart (λ u m. ((apart u).1, tt));
      ready =
          at_pc-each
            (λ u q.
              Ready
                (record s {
                  head = r;
                  pops = suc s.pops;
                  pc = at_pc s.pc t (clearing n);
                  content = xs;
                })
                q)
            s.pc t (clearing n) tt
            (λ u m. Ready-pop s (at_pc s.pc t (clearing n)) r xs (s.pc u) (v.ready u));
    }

IsIn-head : (s : State) (n : ℕ) → s.head ≡ node n → IsValid s → IsIn n s.content
IsIn-head s n h v = rw (head-content s.intr s.head n s.content v.chain h) (inl refl)

pub Step-IsValid : {s u : State} {e : Event} → Step s e u → s.pops < 2 ^ 64 → IsValid s → IsValid u
Step-IsValid (push_load s t n p null_cell f) few v =
    move s t (linking n s.head s.pops) v tt (f.0, tt) (λ u m. (f.1 u, tt))
Step-IsValid (push_link s t n r c p) few v =
    write_step s t n r (pushing n r c) v (rw p refl) (write_self s.intr n r) (rw p at (v.held t))
      (λ u m. rw p at (v.apart t u (λ e. m (sym e))))
Step-IsValid (push_swap s t n r c p h same) few v = push_step s t n r c p h v
Step-IsValid (push_retry s t n r c p) few v =
    move s t (linking n s.head s.pops) v tt (rw p at (v.held t))
      (λ u m. rw p at (v.apart t u (λ e. m (sym e))))
Step-IsValid (pop_load s t n p h) few v =
    move s t (reading n s.pops) v (omega arith, λ e. IsIn-head s n h v) tt (λ u m. tt)
Step-IsValid (pop_tail s t p h) few v = v
Step-IsValid (pop_read s t n c p) few v =
    let relied : (c ≤ s.pops) × (c ≡ s.pops → IsIn n s.content) = rw p at (v.ready t) in
    move s t (popping n (s.intr n) c) v (relied.0, λ e. (relied.1 e, refl)) tt (λ u m. tt)
Step-IsValid (pop_swap s t n r c p h same) few v = pop_step s t n r c p h same few v
Step-IsValid (pop_retry s t n m r c p h) few v =
    move s t (reading m s.pops) v (omega arith, λ e. IsIn-head s m h v) tt (λ u q. tt)
Step-IsValid (pop_retry_tail s t n r c p h) few v = move s t idle v tt tt (λ u m. tt)
Step-IsValid (pop_clear s t n p) few v = write_step s t n null idle v (rw p refl) tt tt (λ u m. tt)
