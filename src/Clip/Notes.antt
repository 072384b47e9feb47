-- ===== src/Clip/Notes.antt =====
-- ClipNote (ase/api.hh) with its comparisons by id and by tick (ase/clip.hh). `F` is `float`.
use anklang.Prelude.{◌+◌, Bool, true, false, Ordering, compare, arith}
use anklang.Prelude.Int.{ℤ, pos_part, neg_part}
use anklang.EventList.Order.{Compare, IsOrder, eq_right}

pub record ClipNote (F : Type 0) : Type 0 where
  pub id : ℤ
  pub channel : ℤ
  pub key : ℤ
  pub selected : Bool
  pub tick : ℤ
  pub duration : ℤ
  pub velocity : F
  pub fine_tune : F

-- Aux::compare_lesser on signed numbers, and on `bool`
abbrev pub compare_ℤ : Compare ℤ
compare_ℤ a b = compare (pos_part a + neg_part b) (pos_part b + neg_part a)

abbrev pub compare_bool : Compare Bool
compare_bool false true = Ordering.lt
compare_bool true false = Ordering.gt
compare_bool false false = Ordering.eq
compare_bool true true = Ordering.eq

-- `if (c) return c; return d;`
abbrev pub or_else : Ordering → Ordering → Ordering
or_else Ordering.eq d = d
or_else Ordering.lt d = Ordering.lt
or_else Ordering.gt d = Ordering.gt

unfoldable pub cmp_note_ids : {F : Type 0} → Compare (ClipNote F)
cmp_note_ids a b = compare_ℤ a.id b.id

unfoldable pub cmp_note_ticks : {F : Type 0} → Compare (ClipNote F)
cmp_note_ticks a b = or_else (compare_ℤ a.tick b.tick) (
    or_else (compare_ℤ a.key b.key) (
      or_else (compare_ℤ a.channel b.channel)
        (or_else (compare_bool a.selected b.selected) (compare_ℤ a.id b.id))))

compare_ℤ-IsOrder : IsOrder compare_ℤ
compare_ℤ-IsOrder = record {
  swap = λ a b. ground arith;
  lt_trans = λ a b c h k. ground arith;
  eq_left = λ a b c h. ground arith;
}

compare_bool-IsOrder : IsOrder compare_bool
compare_bool-IsOrder = record {
  swap = λ a b. ground arith;
  lt_trans = λ a b c h k. ground arith;
  eq_left = λ a b c h. ground arith;
}

-- An order of the images is an order.
IsOrder-at :
    {A B : Type 0} (f : A → B) {cmp : Compare B} → IsOrder cmp → IsOrder (λ a b. cmp (f a) (f b))
IsOrder-at f o = record {
  swap = λ a b. o.swap (f a) (f b);
  lt_trans = λ a b c. o.lt_trans (f a) (f b) (f c);
  eq_left = λ a b c. o.eq_left (f a) (f b) (f c);
}

-- One order where another sees no difference.
IsOrder-or_else :
    {A : Type 0} {c d : Compare A}
    → IsOrder c
    → IsOrder d
    → IsOrder (λ a b. or_else (c a b) (d a b))
IsOrder-or_else o p = record {
  swap = λ a b. ground (arith, o.swap a b, p.swap a b);
  lt_trans = λ x y z h k.
      ground (arith, o.lt_trans x y z, o.eq_left x y z, eq_right o x y z, p.lt_trans x y z);
  eq_left = λ x y z h. ground (arith, o.eq_left x y z, p.eq_left x y z);
}

-- The comparison by ids is an order.
pub cmp_note_ids-IsOrder : {F : Type 0} → IsOrder (cmp_note_ids {F = F})
unfolding cmp_note_ids
cmp_note_ids-IsOrder = IsOrder-at (λ (n : ClipNote _). n.id) compare_ℤ-IsOrder

-- The comparison by ticks is an order.
pub cmp_note_ticks-IsOrder : {F : Type 0} → IsOrder (cmp_note_ticks {F = F})
unfolding cmp_note_ticks
cmp_note_ticks-IsOrder =
    IsOrder-or_else (IsOrder-at (λ (n : ClipNote _). n.tick) compare_ℤ-IsOrder) (
      IsOrder-or_else (IsOrder-at (λ (n : ClipNote _). n.key) compare_ℤ-IsOrder) (
        IsOrder-or_else (IsOrder-at (λ (n : ClipNote _). n.channel) compare_ℤ-IsOrder) (
          IsOrder-or_else (IsOrder-at (λ (n : ClipNote _). n.selected) compare_bool-IsOrder)
            (IsOrder-at (λ (n : ClipNote _). n.id) compare_ℤ-IsOrder))))
