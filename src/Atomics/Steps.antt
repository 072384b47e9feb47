-- ===== src/Atomics/Steps.antt =====
-- What holds between the steps of AtomicIntrusiveStack, and what its operations return (ase/atomics.hh).
use anklang.Prelude.{
  ℕ, ◌≡◌, refl, sym, ◌∙◌, ◌≢◌, Bool, true, false, Option, none, some, List, [], ◌∷◌, ◌++◌, arith,
  ℕ_discrete, ◌==◌,
}
use anklang.Atomics.Stack.{
  Next, store, is_null, first, Pc, idle, linking, swapping, taking, owned, State, at_pc, Links,
  Without, Apart, Event, silent, refused, pushed, popped, Step, own_store, push_load, push_refused,
  push_link, push_swap, push_retry, pop_load, pop_null, pop_swap, pop_retry, pop_retry_null, Reach,
  start, step,
}
use anklang.Atomics.Apart.{
  Chain, Without-init, Apart-nil, Apart-append, Apart-sym, Apart-last, store_self, store_other,
  Chain-store, Links-store, Links-Chain,
}

-- What a thread relies on
abbrev Ready : Next → Pc → Type 0
Ready next idle = Unit
Ready next (linking init last exchange) = Links next init last × Without last init
Ready next (swapping init last exchange) =
    Links next init last × (Without last init × (next last ≡ exchange))
Ready next (taking exchange) = Unit

pub record IsValid (s : State) : Type 0 where
  pub chain : Chain s.next s.head s.content
  pub held : (t : ℕ) → Apart (owned (s.pc t)) s.content
  pub apart : (t u : ℕ) → t ≢ u → Apart (owned (s.pc t)) (owned (s.pc u))
  pub ready : (t : ℕ) → Ready s.next (s.pc t)

pub at_pc-each :
    {A : Type 0} (P : ℕ → A → Type 0) (pc : ℕ → A) (t : ℕ) (k : A)
    → P t k
    → ((u : ℕ) → u ≢ t → P u (pc u))
    → (u : ℕ) → P u (at_pc pc t k u)
unfolding at_pc
at_pc-each P pc t k new old u = elim (ℕ_discrete u t) [
  | yes e ↦ let same : (u == t) ≡ true = ground arith in rw same (rw (← e) at new)
  | no n ↦ let other : (u == t) ≡ false = ground arith in rw other (old u n)
]

pub at_pc-Apart :
    {A : Type 0} (own : A → List ℕ) (pc : ℕ → A) (t : ℕ) (k : A)
    → ((u v : ℕ) → u ≢ v → Apart (own (pc u)) (own (pc v)))
    → ((u : ℕ) → u ≢ t → Apart (own k) (own (pc u)))
    → (u v : ℕ) → u ≢ v
    → Apart (own (at_pc pc t k u)) (own (at_pc pc t k v))
at_pc-Apart own pc t k old new u v =
    at_pc-each (λ u p. u ≢ v → Apart (own p) (own (at_pc pc t k v))) pc t k
      (λ n.
        at_pc-each (λ v q. t ≢ v → Apart (own k) (own q)) pc t k (λ m. absurd (m refl))
          (λ w m l. new w m) v n)
      (λ w m n.
        at_pc-each (λ v q. w ≢ v → Apart (own (pc w)) (own q)) pc t k
          (λ l. Apart-sym (own k) (own (pc w)) (new w m)) (λ x l. old w x) v n)
      u

-- A step that only moves a thread on
move :
    (s : State) (t : ℕ) (k : Pc)
    → IsValid s
    → Ready s.next k
    → Apart (owned k) s.content
    → ((u : ℕ) → u ≢ t → Apart (owned k) (owned (s.pc u)))
    → IsValid (record s { pc = at_pc s.pc t k })
move s t k v r h a = record {
  chain = v.chain;
  held = at_pc-each (λ u p. Apart (owned p) s.content) s.pc t k h (λ u n. v.held u);
  apart = at_pc-Apart owned s.pc t k v.apart a;
  ready = at_pc-each (λ u p. Ready s.next p) s.pc t k r (λ u n. v.ready u);
}

-- A write to a cell of which a thread does not own the node
Ready-store :
    (next : Next) (k : Pc) (z : ℕ) (x : Option ℕ)
    → Without z (owned k)
    → Ready next k
    → Ready (store next z x) k
Ready-store next idle z x w r = tt
Ready-store next (taking a) z x w r = tt
Ready-store next (linking init last e) z x w r =
    (Links-store next z last x init (Without-init z last init w).0 r.0, r.1)
Ready-store next (swapping init last e) z x w r =
    let (before, other) = Without-init z last init w in
    (Links-store next z last x init before r.0, (r.1.0, store_other next z last x other ∙ r.1.1))

link_step :
    (s : State) (t : ℕ) (init : List ℕ) (last : ℕ) (e : Option ℕ)
    → s.pc t ≡ linking init last e
    → IsValid s
    → IsValid (record s { next = store s.next last e; pc = at_pc s.pc t (swapping init last e) })
link_step s t init last e p v =
    let k = swapping init last e in
    let own = rw p at (v.held t) in
    let others : (u : ℕ) → u ≢ t → Apart (init ++ last ∷ []) (owned (s.pc u)) =
      λ u m. rw p at (v.apart t u (λ q. m (sym q))) in
    let r = rw p at (v.ready t) in
    record {
      chain =
          Chain-store s.next last e s.head s.content (Apart-last init s.content last own) v.chain;
      held = at_pc-each (λ u q. Apart (owned q) s.content) s.pc t k own (λ u n. v.held u);
      apart = at_pc-Apart owned s.pc t k v.apart others;
      ready =
          at_pc-each (λ u q. Ready (store s.next last e) q) s.pc t k
            (Links-store s.next last last e init r.1 r.0, (r.1, store_self s.next last e))
            (λ u n.
              Ready-store s.next (s.pc u) last e
                (Apart-last init (owned (s.pc u)) last (others u n)) (v.ready u));
    }

swap_step :
    (s : State) (t : ℕ) (init : List ℕ) (last : ℕ) (e : Option ℕ)
    → s.pc t ≡ swapping init last e
    → s.head ≡ e
    → IsValid s
    → IsValid (record s {
      head = some (first init last);
      pc = at_pc s.pc t idle;
      content = init ++ last ∷ [] ++ s.content;
    })
swap_step s t init last e p h v =
    let r = rw p at (v.ready t) in
    let below : s.next last ≡ s.head = r.1.1 ∙ sym h in
    record {
      chain = Links-Chain s.next init s.content last r.0 (rw below (v.chain));
      held =
          at_pc-each (λ u q. Apart (owned q) (init ++ last ∷ [] ++ s.content)) s.pc t idle tt
            (λ u n.
              Apart-append (owned (s.pc u)) (init ++ last ∷ []) s.content (rw p at (v.apart u t n))
                (v.held u));
      apart = at_pc-Apart owned s.pc t idle v.apart (λ u m. tt);
      ready = at_pc-each (λ u q. Ready s.next q) s.pc t idle tt (λ u n. v.ready u);
    }

Step-IsValid : {s u : State} {e : Event} → Step s e u → IsValid s → IsValid u
Step-IsValid (own_store s z x w o) v = record {
  chain = Chain-store s.next z x s.head s.content w v.chain;
  held = v.held;
  apart = v.apart;
  ready = λ u. Ready-store s.next (s.pc u) z x (o u) (v.ready u);
}
Step-IsValid (push_load s t init last p n l w f) v =
    move s t (linking init last s.head) v (l, w) f.0 (λ u m. f.1 u)
Step-IsValid (push_refused s t last a p n) v = v
Step-IsValid (push_link s t init last e p) v = link_step s t init last e p v
Step-IsValid (push_swap s t init last e p h) v = swap_step s t init last e p h v
Step-IsValid (push_retry s t init last e p n) v =
    let r = rw p at (v.ready t) in
    move s t (linking init last s.head) v (r.0, r.1.0) (rw p at (v.held t))
      (λ u m. rw p at (v.apart t u (λ q. m (sym q))))
Step-IsValid (pop_load s t a p h) v = move s t (taking a) v tt tt (λ u m. tt)
Step-IsValid (pop_null s t p h) v = v
Step-IsValid (pop_swap s t a p h) v = record {
  chain = refl;
  held = λ u. Apart-nil (owned (at_pc s.pc t idle u));
  apart = at_pc-Apart owned s.pc t idle v.apart (λ u m. tt);
  ready = at_pc-each (λ u q. Ready s.next q) s.pc t idle tt (λ u n. v.ready u);
}
Step-IsValid (pop_retry s t a b p h n) v = move s t (taking b) v tt tt (λ u m. tt)
Step-IsValid (pop_retry_null s t a p h) v = move s t idle v tt tt (λ u m. tt)

Reach-IsValid : {next : Next} {s : State} → Reach next s → IsValid s
Reach-IsValid start = record { chain = refl; held = λ t. tt; apart = λ t u n. tt; ready = λ t. tt }
Reach-IsValid (step r st) = Step-IsValid st (Reach-IsValid r)

abbrev pub is_empty : List ℕ → Bool
is_empty [] = true
is_empty (a ∷ xs) = false

-- What an operation promises: to push the nodes on the content and tell whether it was empty, or to
-- take all and give the pointer from which it is linked.
abbrev pub Promise : State → State → Event → Type 0
Promise s u silent = u.content ≡ s.content
Promise s u (refused t) = u.content ≡ s.content
Promise s u (pushed t nodes was_empty) =
    (u.content ≡ nodes ++ s.content) × (was_empty ≡ is_empty s.content)
Promise s u (popped t exchange) = Chain u.next exchange s.content × (u.content ≡ [])

is_null-Chain :
    (next : Next) (p : Option ℕ) (xs : List ℕ) → Chain next p xs → is_null p ≡ is_empty xs
is_null-Chain next p [] c = rw c refl
is_null-Chain next p (a ∷ xs) c = rw (c.0) refl

Chain-null : (next : Next) (xs : List ℕ) → Chain next none xs → xs ≡ []
Chain-null next [] c = refl
Chain-null next (a ∷ xs) c = absurd (cc (c.0))

Step-Promise : {s u : State} {e : Event} → Step s e u → IsValid s → Promise s u e
Step-Promise (own_store s z x w o) v = refl
Step-Promise (push_load s t init last p n l w f) v = refl
Step-Promise (push_refused s t last a p n) v = refl
Step-Promise (push_link s t init last e p) v = refl
Step-Promise (push_swap s t init last e p h) v =
    (refl, rw (← h) (is_null-Chain s.next s.head s.content v.chain))
Step-Promise (push_retry s t init last e p n) v = refl
Step-Promise (pop_load s t a p h) v = refl
Step-Promise (pop_null s t p h) v =
    let all = rw h at (v.chain) in (all, Chain-null s.next s.content all)
Step-Promise (pop_swap s t a p h) v = (rw h at (v.chain), refl)
Step-Promise (pop_retry s t a b p h n) v = refl
Step-Promise (pop_retry_null s t a p h) v =
    let all = rw h at (v.chain) in (all, Chain-null s.next s.content all)

-- In every state that threads reach from an empty stack by any sequence of atomic steps, where
-- each caller owns the linked nodes that it pushes, and cells of nodes that are neither in the
-- stack nor in a push may be written at any time, so that popped nodes can be turned around,
-- reset and pushed again: after any further step the head is linked to the very nodes that were
-- pushed and not popped. A push puts its nodes on them and tells whether there were none, pop_all
-- takes them all, its pointer links to them in their order, and no other step changes them.
pub Reach-Promise :
    {next : Next} {s u : State} {e : Event}
    → Reach next s
    → Step s e u
    → Chain u.next u.head u.content × Promise s u e
Reach-Promise r st = let v = Reach-IsValid r in ((Step-IsValid st v).chain, Step-Promise st v)
