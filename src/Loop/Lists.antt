-- ===== src/Loop/Lists.antt =====
-- Lists of sources under the operations of ase/loop.cc.
use anklang.Prelude.{
  ℕ, ◌≡◌, refl, sym, ◌∙◌, ◌≢◌, inl, inr, Bool, ◌&&◌, List, [], ◌∷◌, map, ◌==◌, if◌then◌else◌,
  Bool-cases,
}
use anklang.Loop.Sources.{EventSource, is_needs_dispatch, remove_source, update}

abbrev pub All : (EventSource → Type 0) → List EventSource → Type 0
All P [] = Unit
All P (s ∷ sources) = P s × All P sources

-- No two sources have the same id.
abbrev pub Distinct : List EventSource → Type 0
Distinct [] = Unit
Distinct (s ∷ sources) = All (λ t. t.id ≢ s.id) sources × Distinct sources

-- Whether a source is dispatched at priority `p` once its turn comes
abbrev pub is_due : ℕ → EventSource → Bool
is_due p s = (s.priority == p) && is_needs_dispatch s.loop_state

-- The ids of the sources to dispatch at priority `p`
unfoldable pub queue : ℕ → List EventSource → List ℕ
queue p [] = []
queue p (s ∷ sources) = let rest = queue p sources in if is_due p s then s.id ∷ rest else rest

module _ (P Q : EventSource → Type 0) where
  pub All-imp :
      (sources : List EventSource) → ((s : EventSource) → P s → Q s) → All P sources → All Q sources
  All-imp [] imp a = tt
  All-imp (s ∷ sources) imp (p, a) = (imp s p, All-imp sources imp a)

  pub All-map :
      (f : EventSource → EventSource) (sources : List EventSource)
      → ((s : EventSource) → P s → Q (f s))
      → All P sources
      → All Q (map f sources)
  All-map f [] keeps a = tt
  All-map f (s ∷ sources) keeps (p, a) = (keeps s p, All-map f sources keeps a)

module _ (P : EventSource → Type 0) (i : ℕ) where
  pub All-update :
      (f : EventSource → EventSource) (sources : List EventSource)
      → ((s : EventSource) → P s → P (f s))
      → All P sources
      → All P (update sources i f)
  unfolding update
  All-update f [] keeps a = tt
  All-update f (s ∷ sources) keeps (p, a) = elim (Bool-cases (i == s.id)) [
    | inl e ↦ rw e (keeps s p, a)
    | inr e ↦ rw e (p, All-update f sources keeps a)
  ]

  pub All-remove_source :
      (sources : List EventSource) → All P sources → All P (remove_source sources i)
  unfolding remove_source
  All-remove_source [] a = tt
  All-remove_source (s ∷ sources) (p, a) = elim (Bool-cases (i == s.id)) [
    | inl e ↦ rw e a
    | inr e ↦ rw e (p, All-remove_source sources a)
  ]

module _ (f : EventSource → EventSource) (same : (s : EventSource) → (f s).id ≡ s.id) where
  pub Distinct-map : (sources : List EventSource) → Distinct sources → Distinct (map f sources)
  Distinct-map [] d = tt
  Distinct-map (s ∷ sources) (a, d) = (
    All-map (λ t. t.id ≢ s.id) (λ t. t.id ≢ (f s).id) f sources
        (λ t n e. n (sym (same t) ∙ e ∙ same s)) a,
    Distinct-map sources d,
  )

  pub Distinct-update :
      (sources : List EventSource) (i : ℕ) → Distinct sources → Distinct (update sources i f)
  unfolding update
  Distinct-update [] i d = tt
  Distinct-update (s ∷ sources) i (a, d) = elim (Bool-cases (i == s.id)) [
    | inl e ↦ rw (e, same s) (a, d)
    | inr e ↦ rw e (
      All-update (λ t. t.id ≢ s.id) i f sources (λ t n e. n (sym (same t) ∙ e)) a,
      Distinct-update sources i d,
    )
  ]

  -- Two changes of one source, and its change before it is removed
  pub update-update :
      (g : EventSource → EventSource) (sources : List EventSource) (i : ℕ)
      → update (update sources i f) i g ≡ update sources i (λ s. g (f s))
  unfolding update
  update-update g [] i = refl
  update-update g (s ∷ sources) i = elim (Bool-cases (i == s.id)) [
    | inl e ↦ rw (e, same s, e) refl
    | inr e ↦ rw (e, e, update-update g sources i) refl
  ]

  pub remove_source-update :
      (sources : List EventSource) (i : ℕ)
      → remove_source (update sources i f) i ≡ remove_source sources i
  unfolding remove_source update
  remove_source-update [] i = refl
  remove_source-update (s ∷ sources) i = elim (Bool-cases (i == s.id)) [
    | inl e ↦ rw (e, same s, e) refl
    | inr e ↦ rw (e, e, remove_source-update sources i) refl
  ]

pub Distinct-remove_source :
    (sources : List EventSource) (i : ℕ) → Distinct sources → Distinct (remove_source sources i)
unfolding remove_source
Distinct-remove_source [] i d = tt
Distinct-remove_source (s ∷ sources) i (a, d) = elim (Bool-cases (i == s.id)) [
  | inl e ↦ rw e d
  | inr e ↦
      rw e (All-remove_source (λ t. t.id ≢ s.id) i sources a, Distinct-remove_source sources i d)
]
