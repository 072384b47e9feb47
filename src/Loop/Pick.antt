-- ===== src/Loop/Pick.antt =====
-- The round-robin choice of a loop in MainLoop::iterate_loops_Lm (ase/loop.cc).
use anklang.Prelude.{
  ℕ, zero, suc, ◌+◌, ◌-◌, ◌*◌, ◌%◌, ◌^◌, ◌≤◌, ◌<◌, ◌≡◌, refl, sym, ap, ◌∙◌, ◌⊎◌, inl, inr, Bool,
  true, false, Option, none, some, [], ◌∷◌, arith, dec_lt, leb→le, Bool-cases, length, get_elem?,
  get_elem?-some_lt,
}
use native.Mathlib.Nat.{mod-lt, mod-eq_of_lt, mod-add-mod, mod-eq-sub-mod}
use anklang.Loop.Sources.{EventLoop}
use anklang.Loop.MainLoop.{
  Flagged, any_dispatchable, max_dispatch_priority, can_pick, pick, pick_fuel,
}

-- The index that is tried after `k` steps
abbrev pub tried : ℕ → ℕ → ℕ → ℕ
tried n rr_index k = (rr_index + k) % 2 ^ 32 % n

module _ (loops : Flagged) (top : ℕ) where
  -- The first index that can be picked is the one tried after `k` steps.
  abbrev pub FirstPick : ℕ → ℕ → Option ℕ → Type 0
  FirstPick rr_index fuel result =
      (k : ℕ) × (k < fuel)
      × (result ≡ some (tried (length loops) rr_index k))
      × (can_pick top (get_elem? loops (tried (length loops) rr_index k)) ≡ true)
      × ((j : ℕ) → j < k → can_pick top (get_elem? loops (tried (length loops) rr_index j)) ≡ false)

-- A dispatchable loop that has the maximal priority
abbrev pub IsTop : Flagged → ℕ → EventLoop → Type 0
IsTop loops i l =
    (get_elem? loops i ≡ some (l, true)) × (l.dispatch_priority ≡ max_dispatch_priority loops)

IsTop-of_cons :
    (l : EventLoop) (flag : Bool) (loops : Flagged)
    → flag ≡ true
    → ((i : ℕ) × (m : EventLoop) × IsTop loops i m) ⊎ (max_dispatch_priority loops ≡ 0)
    → (i : ℕ) × (m : EventLoop) × IsTop ((l, flag) ∷ loops) i m
unfolding max_dispatch_priority
IsTop-of_cons l flag loops on (inr e) = rw on (0, l, (refl, omega (arith, e)))
IsTop-of_cons l flag loops on (inl (i, m, (at, e))) =
    rw on (elim (dec_lt l.dispatch_priority m.dispatch_priority) [
      | yes p ↦ (suc i, m, (at, omega arith))
      | no p ↦ (0, l, (refl, omega arith))
    ])

max-attained :
    (loops : Flagged)
    → ((i : ℕ) × (l : EventLoop) × IsTop loops i l)
      ⊎ ((any_dispatchable loops ≡ false) × (max_dispatch_priority loops ≡ 0))
unfolding any_dispatchable max_dispatch_priority
max-attained [] = inr (refl, refl)
max-attained ((l, true) ∷ loops) = inl (
    IsTop-of_cons l true loops refl
      (elim (max-attained loops) [ inl t ↦ inl t | inr (dead, e) ↦ inr e ]))
max-attained ((l, false) ∷ loops) = elim (max-attained loops) [
  | inl (i, m, t) ↦ inl (suc i, m, t)
  | inr e ↦ inr e
]

max-bound :
    (loops : Flagged) (i : ℕ) (l : EventLoop)
    → get_elem? loops i ≡ some (l, true)
    → l.dispatch_priority ≤ max_dispatch_priority loops
unfolding max_dispatch_priority
max-bound [] i l at = cc
max-bound ((m, flag) ∷ loops) zero l at =
    let e : ◌≡◌ {A = EventLoop × Bool} (m, flag) (l, true) = cc in
    ground (
      arith,
      ap (λ (p : EventLoop × Bool). p.0.dispatch_priority) e,
      ap (λ (p : EventLoop × Bool). p.1) e,
    )
max-bound ((m, flag) ∷ loops) (suc i) l at = ground (arith, max-bound loops i l at)

-- From the remainder `r` of `a`, `k` steps on
mod_step : (n a k i : ℕ) → i < n → (a % n + k ≡ i) ⊎ (a % n + k ≡ i + n) → (a + k) % n ≡ i
mod_step n a k i l (inl e) = sym (mod-add-mod a n k) ∙ ap (λ (t : ℕ). t % n) e ∙ mod-eq_of_lt l
mod_step n a k i l (inr e) =
    let past : i + n - n ≡ i = omega arith in
    sym (mod-add-mod a n k)
    ∙ ap (λ (t : ℕ). t % n) e
    ∙ mod-eq-sub-mod {n = i + n} {m = n} (omega arith)
    ∙ rw past (mod-eq_of_lt l)

in_step : (n rr_index i : ℕ) → i < n → (k : ℕ) × (k < n) × ((rr_index + k) % n ≡ i)
in_step n rr_index i l =
    let m = mod-lt rr_index {m = n} (omega arith) in
    elim (dec_lt i (rr_index % n)) [
      | yes p ↦ (i + n - rr_index % n, omega arith, mod_step n rr_index _ i l (inr (omega arith)))
      | no p ↦ (i - rr_index % n, omega arith, mod_step n rr_index _ i l (inl (omega arith)))
    ]

-- Every index is tried within two rounds.
tried-reaches :
    (n rr_index i : ℕ)
    → n ≤ 2 ^ 32
    → rr_index < 2 ^ 32
    → i < n
    → (k : ℕ) × (k < 2 * n) × (tried n rr_index k ≡ i)
tried-reaches n rr_index i room r l = elim (dec_lt (rr_index + n) (2 ^ 32)) [
  | yes p ↦
      let f = in_step n rr_index i l in
      let small : (rr_index + f.0) % 2 ^ 32 ≡ rr_index + f.0 = omega arith in
      (f.0, omega arith, rw small f.2)
  | no p ↦
      let wrapped : (rr_index + (2 ^ 32 - rr_index + i)) % 2 ^ 32 ≡ i = omega arith in
      (2 ^ 32 - rr_index + i, omega arith, rw wrapped (mod-eq_of_lt l))
]

module _ (loops : Flagged) (top : ℕ) where
  -- A search from a later step
  later :
      (rr_index k : ℕ)
      → tried (length loops) rr_index (suc k) ≡ tried (length loops) ((rr_index + 1) % 2 ^ 32) k
  later rr_index k =
      let e : (rr_index + suc k) % 2 ^ 32 ≡ ((rr_index + 1) % 2 ^ 32 + k) % 2 ^ 32 = omega arith in
      rw e refl

  none_before :
      (rr_index k : ℕ)
      → can_pick top (get_elem? loops (tried (length loops) rr_index 0)) ≡ false
      → ((j : ℕ)
          → j < k
          → can_pick top (get_elem? loops (tried (length loops) ((rr_index + 1) % 2 ^ 32) j))
            ≡ false)
      → (j : ℕ) → j < suc k
      → can_pick top (get_elem? loops (tried (length loops) rr_index j)) ≡ false
  none_before rr_index k bad before zero h = bad
  none_before rr_index k bad before (suc j) h = rw (later rr_index j) (before j (omega arith))

  pick-FirstPick :
      (fuel rr_index k : ℕ)
      → rr_index < 2 ^ 32
      → k < fuel
      → can_pick top (get_elem? loops (tried (length loops) rr_index k)) ≡ true
      → FirstPick loops top rr_index fuel (pick fuel loops top rr_index).0
  unfolding pick
  pick-FirstPick zero rr_index k r l e = absurd (omega arith)
  pick-FirstPick (suc fuel) rr_index zero r l e =
      let here : (rr_index + 0) % 2 ^ 32 ≡ rr_index = omega arith in
      let good : can_pick top (get_elem? loops (rr_index % length loops)) ≡ true =
        ap (λ t. can_pick top (get_elem? loops (t % length loops))) (sym here) ∙ e in
      rw good (0, omega arith, rw here refl, e, λ j h. absurd (omega arith))
  pick-FirstPick (suc fuel) rr_index (suc k) r l e =
      let here : (rr_index + 0) % 2 ^ 32 ≡ rr_index = omega arith in
      elim (Bool-cases (can_pick top (get_elem? loops (rr_index % length loops)))) [
        | inl good ↦
            rw good (0, omega arith, rw here refl, rw here good, λ j h. absurd (omega arith))
        | inr bad ↦
            let f =
              pick-FirstPick fuel ((rr_index + 1) % 2 ^ 32) k (omega arith) (omega arith)
                (sym (ap (λ t. can_pick top (get_elem? loops t)) (later rr_index k)) ∙ e) in
            rw bad (
              suc f.0,
              omega arith,
              rw (later rr_index f.0) f.2,
              rw (later rr_index f.0) f.3,
              none_before rr_index f.0 (rw here bad) f.4,
            )
      ]

pick-FirstPick_top :
    (loops : Flagged) (rr_index : ℕ)
    → length loops ≤ 2 ^ 32
    → rr_index < 2 ^ 32
    → any_dispatchable loops ≡ true
    → FirstPick loops
        (max_dispatch_priority loops)
        rr_index
        (pick_fuel loops)
        (pick (pick_fuel loops) loops (max_dispatch_priority loops) rr_index).0
unfolding can_pick
pick-FirstPick_top loops rr_index room r any = elim (max-attained loops) [
  | inl (i, l, (at, e)) ↦
      let t = tried-reaches (length loops) rr_index i room r (get_elem?-some_lt loops i _ at) in
      let good : can_pick (max_dispatch_priority loops)
            (get_elem? loops (tried (length loops) rr_index t.0))
          ≡ true =
        rw (t.2, at) (ground (arith, e)) in
      pick-FirstPick loops _ _ rr_index t.0 r t.1 good
  | inr (dead, e) ↦ absurd cc
]

IsTop-of_can :
    (loops : Flagged) (i : ℕ) (o : Option (EventLoop × Bool))
    → get_elem? loops i ≡ o
    → can_pick (max_dispatch_priority loops) o ≡ true
    → (l : EventLoop) × IsTop loops i l
unfolding can_pick
IsTop-of_can loops i none at e = cc
IsTop-of_can loops i (some (l, false)) at e = cc
IsTop-of_can loops i (some (l, true)) at e =
    (l, (at, omega (arith, max-bound loops i l at, leb→le _ _ e)))

no-IsTop :
    (loops : Flagged) (i : ℕ)
    → can_pick (max_dispatch_priority loops) (get_elem? loops i) ≡ false
    → (m : EventLoop) → ¬ IsTop loops i m
unfolding can_pick
no-IsTop loops i e m (at, p) =
    let good : can_pick (max_dispatch_priority loops) (get_elem? loops i) ≡ true =
      rw at (ground (arith, p)) in
    cc

-- With at most 2^32 loops, at least one of them dispatchable: within two rounds over the loops,
-- from any rr_index and across its wrap, the search ends on a loop that is dispatchable and has
-- the maximal priority of the dispatchable ones, and no loop tried before is such a loop.
pub pick-IsTop :
    (loops : Flagged) (rr_index : ℕ)
    → length loops ≤ 2 ^ 32
    → rr_index < 2 ^ 32
    → any_dispatchable loops ≡ true
    → (k : ℕ) × (l : EventLoop) × (k < pick_fuel loops)
      × ((pick (pick_fuel loops) loops (max_dispatch_priority loops) rr_index).0
          ≡ some (tried (length loops) rr_index k))
      × IsTop loops (tried (length loops) rr_index k) l
      × ((j : ℕ) → j < k → (m : EventLoop) → ¬ IsTop loops (tried (length loops) rr_index j) m)
pick-IsTop loops rr_index room r any =
    let f = pick-FirstPick_top loops rr_index room r any in
    let t = IsTop-of_can loops _ _ refl f.3 in
    (f.0, t.0, f.1, f.2, t.1, λ j h. no-IsTop loops _ (f.4 j h))
