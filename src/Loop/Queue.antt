-- ===== src/Loop/Queue.antt =====
-- The sources that an event loop dispatches next (ase/loop.cc), as a queue.
use anklang.Prelude.{
  ℕ, ◌≡◌, refl, sym, ◌∙◌, ◌≢◌, inl, inr, true, false, some, List, [], ◌∷◌, map, arith, ◌==◌,
  Bool-cases,
}
use anklang.Loop.Sources.{EventSource, remove_source, update}
use anklang.Loop.Phases.{find_dispatch, unpoll_sources}
use anklang.Loop.Lists.{All, Distinct, is_due, queue}

-- A source whose turn it can be is polled.
abbrev pub IsPolled : ℕ → EventSource → Type 0
IsPolled p s = is_due p s ≡ true → s.polled ≡ true

pub queue-map :
    (p : ℕ) (f : EventSource → EventSource) (sources : List EventSource)
    → All (λ s. ((f s).id ≡ s.id) × (is_due p (f s) ≡ is_due p s)) sources
    → queue p (map f sources) ≡ queue p sources
unfolding queue
queue-map p f [] a = refl
queue-map p f (s ∷ sources) ((same, due), a) = rw (same, due, queue-map p f sources a) refl

pub queue-unpoll_sources :
    (p : ℕ) (sources : List EventSource) → queue p (unpoll_sources sources) ≡ queue p sources
unfolding queue
queue-unpoll_sources p [] = refl
queue-unpoll_sources p (s ∷ sources) = rw (queue-unpoll_sources p sources) refl

-- The head of the queue is found, and leaves it when it is removed, or changed so that it is not due.
pub record IsHead (p id : ℕ) (rest : List ℕ) (sources : List EventSource) (s : EventSource)
    : Type 0 where
  pub found : find_dispatch p sources ≡ some s
  pub named : s.id ≡ id
  pub changed :
      (f : EventSource → EventSource)
      → ((t : EventSource) → is_due p (f t) ≡ false)
      → queue p (update sources id f) ≡ rest
  pub removed : queue p (remove_source sources id) ≡ rest

module _ (p : ℕ) (t : EventSource) (sources : List EventSource) where
  pub queue_due : is_due p t ≡ true → queue p (t ∷ sources) ≡ t.id ∷ queue p sources
  unfolding queue
  queue_due due = rw due refl

  pub queue_idle : is_due p t ≡ false → queue p (t ∷ sources) ≡ queue p sources
  unfolding queue
  queue_idle idle = rw idle refl

  find_due : IsPolled p t → is_due p t ≡ true → find_dispatch p (t ∷ sources) ≡ some t
  unfolding find_dispatch
  find_due polled due = rw (due, polled due) refl

  find_idle : is_due p t ≡ false → find_dispatch p (t ∷ sources) ≡ find_dispatch p sources
  unfolding find_dispatch
  find_idle idle = elim (Bool-cases t.polled) [
    | inl e ↦ rw (idle, e) refl
    | inr e ↦ rw (idle, e) refl
  ]

module _ (p : ℕ) where
  -- A source before the head
  skip :
      (id : ℕ) (rest : List ℕ) (t : EventSource) (sources : List EventSource) (s : EventSource)
      → is_due p t ≡ false
      → t.id ≢ id
      → IsHead p id rest sources s
      → IsHead p id rest (t ∷ sources) s
  unfolding update remove_source
  skip id rest t sources s idle other h =
      let differs : (id == t.id) ≡ false = ground (arith, other) in
      record {
        found = find_idle p t sources idle ∙ h.found;
        named = h.named;
        changed = λ f n. rw differs (queue_idle p t _ idle ∙ h.changed f n);
        removed = rw differs (queue_idle p t _ idle ∙ h.removed);
      }

  here :
      (t : EventSource) (sources : List EventSource)
      → IsPolled p t
      → is_due p t ≡ true
      → IsHead p t.id (queue p sources) (t ∷ sources) t
  unfolding update remove_source
  here t sources polled due =
      let e : (t.id == t.id) ≡ true = ground arith in
      record {
        found = find_due p t sources polled due;
        named = refl;
        changed = λ f n. rw e (queue_idle p (f t) sources (n t));
        removed = rw e refl;
      }

  queue_member :
      (sources : List EventSource) (i id : ℕ) (rest : List ℕ)
      → All (λ t. t.id ≢ i) sources
      → queue p sources ≡ id ∷ rest
      → i ≢ id
  unfolding queue
  queue_member [] i id rest a e = cc
  queue_member (t ∷ sources) i id rest (n, a) e = elim (Bool-cases (is_due p t)) [
    | inl due ↦
        let h : t.id ∷ queue p sources ≡ id ∷ rest = sym (queue_due p t sources due) ∙ e in
        λ same. n (let g : t.id ≡ id = cc in g ∙ sym same)
    | inr idle ↦ queue_member sources i id rest a (sym (queue_idle p t sources idle) ∙ e)
  ]

  pub queue-IsHead :
      (sources : List EventSource) (id : ℕ) (rest : List ℕ)
      → Distinct sources
      → All (IsPolled p) sources
      → queue p sources ≡ id ∷ rest
      → (s : EventSource) × IsHead p id rest sources s
  unfolding queue
  queue-IsHead [] id rest d a e = cc
  queue-IsHead (t ∷ sources) id rest (fresh, d) (polled, a) e = elim (Bool-cases (is_due p t)) [
    | inl due ↦
        let h : t.id ∷ queue p sources ≡ id ∷ rest = sym (queue_due p t sources due) ∙ e in
        let i : t.id ≡ id = cc in
        let r : queue p sources ≡ rest = cc in (t, rw (sym i, sym r) (here t sources polled due))
    | inr idle ↦
        let e = sym (queue_idle p t sources idle) ∙ e in
        let r = queue-IsHead sources id rest d a e in
        (r.0, skip id rest t sources r.0 idle (queue_member sources t.id id rest fresh e) r.1)
  ]
