-- ===== src/QueueMux/Drain.antt =====
-- What QueueMultiplexer yields (ase/queuemux.hh).
use anklang.Prelude.{
  ℕ, zero, suc, ◌<◌, ◌≡◌, refl, arith, true, false, ltb, if◌then◌else◌, List, [], ◌∷◌, ◌++◌, length,
  get_elem?, set, ◌&&◌, some, ◌⊎◌, inl, inr, Bool-cases, ◌==◌, length-set,
}
use anklang.Prelude.Int.{ℤ, ◌≤ℤ◌, ltb_ℤ}
use anklang.QueueMux.Multiplexer.{Ptr, Mux, seek, remove_current, advance}
use anklang.QueueMux.Seek.{prio_at, IsSought, seek-IsSought}

-- All values that are still queued
abbrev pub pending : {V : Type 0} → List (Ptr V) → List V
pending [] = []
pending (p ∷ ps) = p.it ∷ p.behind ++ pending ps

module _ {V : Type 0} (priority : V → ℤ) (max_priority : ℤ) where
  -- Priorities ascend from `z` on.
  abbrev pub AscendsFrom : ℤ → List V → Type 0
  AscendsFrom z [] = Unit
  AscendsFrom z (v ∷ vs) = (z ≤ℤ priority v) × AscendsFrom (priority v) vs

  -- No queue has a value before `z`, and each is in order.
  abbrev pub QueuesFrom : ℤ → List (Ptr V) → Type 0
  QueuesFrom z ps = (j : ℕ) (p : Ptr V) → get_elem? ps j ≡ some p → AscendsFrom z (p.it ∷ p.behind)

  -- Ready to pop: the current queue is the one to pop from, if there is one.
  abbrev pub IsReady : Mux V → Type 0
  IsReady m = (length m.ptrs ≡ 0) ⊎ IsSought priority max_priority m.ptrs m.current m.next

  pub seek-ptrs : (m : Mux V) → (seek priority max_priority m).ptrs ≡ m.ptrs
  unfolding seek
  seek-ptrs m = elim (Bool-cases (length m.ptrs == 0)) [ inl q ↦ rw q refl | inr q ↦ rw q refl ]

  pub seek-IsReady :
      (m : Mux V) → ((v : V) → priority v ≤ℤ max_priority) → IsReady (seek priority max_priority m)
  seek-IsReady m b = elim (Bool-cases (length m.ptrs == 0)) [
    | inl q ↦ inl (rw (seek-ptrs m) (ground (arith, q)))
    | inr q ↦ inr (rw (seek-ptrs m) (seek-IsSought priority max_priority m b (ground (arith, q))).1)
  ]

  pub prio_at-get :
      (ps : List (Ptr V)) (j : ℕ) (p : Ptr V)
      → get_elem? ps j ≡ some p
      → (j < length ps) × (prio_at priority max_priority ps j ≡ priority p.it)
  prio_at-get [] j p e = cc
  prio_at-get (q ∷ ps) zero p e = let same : q ≡ p = cc in (omega arith, rw same refl)
  prio_at-get (q ∷ ps) (suc j) p e = let r = prio_at-get ps j p e in (omega (arith, r.0), r.1)

  get-prio_at :
      (ps : List (Ptr V)) (j : ℕ) → j < length ps → (p : Ptr V) × (get_elem? ps j ≡ some p)
  get-prio_at [] j h = absurd (omega arith)
  get-prio_at (p ∷ ps) zero h = (p, refl)
  get-prio_at (p ∷ ps) (suc j) h = get-prio_at ps j (omega arith)

  pub List-cases : (vs : List V) → (vs ≡ []) ⊎ ((w : V) × (ws : List V) × (vs ≡ w ∷ ws))
  List-cases [] = inl refl
  List-cases (w ∷ ws) = inr (w, ws, refl)

  prio_at-set :
      (ps : List (Ptr V)) (i j : ℕ) (q : Ptr V)
      → prio_at priority max_priority (set ps i q) j ≡ (
          if i == j && ltb i (length ps) then priority q.it else prio_at priority max_priority ps j)
  prio_at-set [] i j q = ground arith
  prio_at-set (p ∷ ps) zero zero q = ground arith
  prio_at-set (p ∷ ps) zero (suc j) q = ground arith
  prio_at-set (p ∷ ps) (suc i) zero q = ground arith
  prio_at-set (p ∷ ps) (suc i) (suc j) q = ground (arith, prio_at-set ps i j q)

  set-IsSought :
      (ps : List (Ptr V)) (c : ℕ) (next : ℤ) (q : Ptr V)
      → IsSought priority max_priority ps c next
      → priority q.it ≤ℤ next
      → IsSought priority max_priority (set ps c q) c next
  set-IsSought ps c next q s l = record {
    inside = omega (arith, s.inside, length-set ps c q);
    leads =
        let inside = s.inside in
        let hit : (c == c && ltb c (length ps)) ≡ true = ground arith in
        rw (prio_at-set ps c c q, hit) l;
    others = λ j k n.
        let miss : (c == j && ltb c (length ps)) ≡ false = ground arith in
        rw (prio_at-set ps c j q, miss) (s.others j (omega (arith, k, length-set ps c q)) n);
  }

  pub advance-IsReady :
      (m : Mux V) (p : Ptr V)
      → ((v : V) → priority v ≤ℤ max_priority)
      → get_elem? m.ptrs m.current ≡ some p
      → IsReady m
      → IsReady (advance priority max_priority m p)
  unfolding advance
  advance-IsReady m p b e (inl h) = absurd (omega (arith, h, (prio_at-get m.ptrs m.current p e).0))
  advance-IsReady m p b e (inr s) = elim (List-cases p.behind) [
    | inl q ↦ rw q (seek-IsReady _ b)
    | inr (w, ws, q) ↦ elim (Bool-cases (ltb_ℤ m.next (priority w))) [
      | inl far ↦ rw (q, far) (seek-IsReady _ b)
      | inr near ↦
          rw (q, near) (inr (set-IsSought m.ptrs m.current m.next _ s (ground (arith, near))))
    ]
  ]

  -- The queues behind `pop`
  pub advance-ptrs :
      (m : Mux V) (p : Ptr V)
      → (advance priority max_priority m p).ptrs ≡ (elim p.behind [
        | [] ↦ remove_current priority max_priority m.ptrs m.current
        | w ∷ ws ↦ set m.ptrs m.current (record { it = w; behind = ws })
      ])
  unfolding advance
  advance-ptrs m p = elim (List-cases p.behind) [
    | inl q ↦ rw q (seek-ptrs _)
    | inr (w, ws, q) ↦ elim (Bool-cases (ltb_ℤ m.next (priority w))) [
      | inl far ↦ rw (q, far) (seek-ptrs _)
      | inr near ↦ rw (q, near) refl
    ]
  ]
