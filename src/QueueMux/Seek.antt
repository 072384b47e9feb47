-- ===== src/QueueMux/Seek.antt =====
-- The scan of QueueMultiplexer::seek (ase/queuemux.hh).
use anklang.Prelude.{
  ℕ, zero, suc, ◌+◌, ◌<◌, ◌≡◌, ◌≢◌, refl, arith, false, List, [], ◌∷◌, length, ◌⊎◌, inl, inr,
  Bool-cases, ℕ_discrete, ◌==◌,
}
use anklang.Prelude.Int.{ℤ, ◌≤ℤ◌, ltb_ℤ}
use anklang.QueueMux.Multiplexer.{Ptr, Mux, Found, start_seek, seek_round, seek_from, seek}

module _ {V : Type 0} (priority : V → ℤ) (max_priority : ℤ) where
  -- The priority at the head of queue `i`
  abbrev pub prio_at : List (Ptr V) → ℕ → ℤ
  prio_at [] i = max_priority
  prio_at (p ∷ ps) zero = priority p.it
  prio_at (p ∷ ps) (suc i) = prio_at ps i

  -- What `pop` relies on: no other queue is before `next`, and the current one is not behind it.
  pub record IsSought (ps : List (Ptr V)) (current : ℕ) (next : ℤ) : Type 0 where
    pub inside : current < length ps
    pub leads : prio_at ps current ≤ℤ next
    pub others : (j : ℕ) → j < length ps → j ≢ current → next ≤ℤ prio_at ps j

  -- After `i` rounds, for queues with the priorities `h`
  record Seen (h : ℕ → ℤ) (i : ℕ) (s : Found priority max_priority) : Type 0 where
    ordered : s.first ≤ℤ s.next
    bounded : s.next ≤ℤ max_priority
    others : (j : ℕ) → j < i → j ≢ s.current → s.next ≤ℤ h j
    leads :
        ((s.current < i) × (h s.current ≡ s.first))
        ⊎ ((s.current ≡ 0) × (max_priority ≤ℤ s.first) × ((j : ℕ) → j < i → max_priority ≤ℤ h j))

  below_suc : (j i : ℕ) → j < suc i → (j ≡ i) ⊎ (j < i)
  below_suc j i l = omega (arith, l)

  seek_round-Seen :
      (h : ℕ → ℤ) (i : ℕ) (s : Found priority max_priority)
      → h i ≤ℤ max_priority
      → Seen h i s
      → Seen h (suc i) (seek_round priority max_priority i (h i) s)
  unfolding seek_round
  seek_round-Seen h i s m v = elim (Bool-cases (ltb_ℤ (h i) s.first)) [
    | inl front ↦ rw front (record {
      ordered = ground (arith, front);
      bounded = omega (arith, v.ordered, v.bounded);
      others = λ j l n. elim (below_suc j i l) [
        | inl e ↦ absurd (n e)
        | inr k ↦ elim (ℕ_discrete j s.current) [
          | yes e ↦ elim v.leads [
            | inl a ↦ rw (e, a.1) (omega arith)
            | inr a ↦ omega (arith, a.2 j k, v.ordered, v.bounded)
          ]
          | no e ↦ omega (arith, v.ordered, v.others j k e)
        ]
      ];
      leads = inl (omega arith, refl);
    })
    | inr behind ↦ elim (Bool-cases (ltb_ℤ (h i) s.next)) [
      | inl second ↦
          rw (behind, second)
            (record {
              ordered = ground (arith, behind);
              bounded = m;
              others = λ j l n. elim (below_suc j i l) [
                | inl e ↦ rw e (omega arith)
                | inr k ↦ let o = v.others j k n in ground (arith, second)
              ];
              leads = elim v.leads [
                | inl a ↦ inl (omega (arith, a.0), a.1)
                | inr a ↦
                    let b = v.bounded in let c = a.1 in absurd (ground (arith, second, behind))
              ];
            })
      | inr last ↦
          rw (behind, last)
            (record {
              ordered = v.ordered;
              bounded = v.bounded;
              others = λ j l n. elim (below_suc j i l) [
                | inl e ↦ rw e (ground (arith, last))
                | inr k ↦ v.others j k n
              ];
              leads = elim v.leads [
                | inl a ↦ inl (omega (arith, a.0), a.1)
                | inr a ↦ inr (
                  a.0,
                  a.1,
                  λ j l. elim (below_suc j i l) [
                    | inl e ↦ let c = a.1 in rw e (ground (arith, behind))
                    | inr k ↦ a.2 j k
                  ],
                )
              ];
            })
    ]
  ]

  seek_from-Seen :
      (h : ℕ → ℤ) (i : ℕ) (ps : List (Ptr V)) (s : Found priority max_priority)
      → ((v : V) → priority v ≤ℤ max_priority)
      → ((j : ℕ) → j < length ps → h (i + j) ≡ prio_at ps j)
      → Seen h i s
      → Seen h (i + length ps) (seek_from priority max_priority i ps s)
  unfolding seek_from
  seek_from-Seen h i [] s m e v = let end : i + 0 ≡ i = omega arith in rw end v
  seek_from-Seen h i (p ∷ ps) s m e v =
      let start : i + 0 ≡ i = omega arith in
      let here : h i ≡ priority p.it = rw start at (e 0 (omega arith)) in
      let round = rw here at (seek_round-Seen h i s (rw here (m p.it)) v) in
      let one : suc i ≡ i + 1 = omega arith in
      let end : i + suc (length ps) ≡ i + 1 + length ps = omega arith in
      rw end (
        seek_from-Seen h (i + 1) ps _ m
          (λ j l.
            let shift : i + 1 + j ≡ i + suc j = omega arith in rw shift (e (suc j) (omega arith)))
          (rw one at round))

  prio_at_bound :
      (ps : List (Ptr V)) (j : ℕ)
      → ((v : V) → priority v ≤ℤ max_priority)
      → prio_at ps j ≤ℤ max_priority
  prio_at_bound [] j m = omega arith
  prio_at_bound (p ∷ ps) zero m = m p.it
  prio_at_bound (p ∷ ps) (suc j) m = prio_at_bound ps j m

  -- With queues `seek` finds the one to pop from.
  pub seek-IsSought :
      (m : Mux V)
      → ((v : V) → priority v ≤ℤ max_priority)
      → 0 < length m.ptrs
      → let m' = seek priority max_priority m in
        (m'.ptrs ≡ m.ptrs) × IsSought m.ptrs m'.current m'.next
  unfolding seek
  seek-IsSought m b h =
      let filled : (length m.ptrs == 0) ≡ false = ground arith in
      let seen =
        seek_from-Seen (prio_at m.ptrs) 0 m.ptrs (start_seek priority max_priority) b
          (λ j l. let begin : 0 + j ≡ j = omega arith in rw begin refl)
          (record {
            ordered = omega arith;
            bounded = omega arith;
            others = λ j l n. omega arith;
            leads = inr (refl, omega arith, λ j l. omega arith);
          }) in
      let o = seen.others in
      rw filled (
        refl,
        elim seen.leads [
          | inl a ↦ record {
            inside = omega (arith, a.0);
            leads = let c = seen.ordered in rw (a.1) c;
            others = λ j l n. o j (omega arith) n;
          }
          | inr a ↦ record {
            inside = omega (arith, a.0, h);
            leads = omega (
              arith,
              prio_at_bound m.ptrs
                  (seek_from priority max_priority 0 m.ptrs
                    (start_seek priority max_priority)).current
                  b,
              a.1,
              seen.ordered,
            );
            others = λ j l n. o j (omega arith) n;
          }
        ],
      )
