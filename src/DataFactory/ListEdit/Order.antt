-- ===== src/DataFactory/ListEdit/Order.antt =====
-- data_factory.c: where an index puts an entry of a list that the user orders.
use onm_cli.Base.{
  ℕ, zero, suc, ◌+◌, ◌*◌, ◌/◌, ◌^◌, ◌≤◌, ◌<◌, ◌≡◌, refl, Bool-cases, inl, inr, true, false, List,
  [], ◌∷◌, arith, leb, ltb, lt→ltb, get_elem?, if◌then◌else◌,
}
use onm_cli.DataFactory.ListEdit.{insert_point, is_before}

point_negative :
    (index curr : ℕ) (ns : List ℕ)
    → leb (2 ^ 31) index ≡ true
    → insert_point index curr ns ≡ get_elem? ns zero
unfolding insert_point
point_negative index curr [] h = refl
point_negative index curr (n ∷ ns) h = rw h

is_before-ltb : (index c : ℕ) → leb (2 ^ 31) index ≡ false → is_before index c ≡ ltb index c
is_before-ltb index c h = ground arith

-- `j` more steps of ten from `c` lead past the index.
point_after :
    (index c j : ℕ) (ns : List ℕ)
    → leb (2 ^ 31) index ≡ false
    → index < c + 10 * j
    → c + 10 * j ≤ index + 10
    → insert_point index c ns ≡ get_elem? ns j
unfolding insert_point
point_after index c j [] h lt le = refl
point_after index c zero (n ∷ ns) h lt le =
    rw (is_before-ltb index c h, lt→ltb index c (omega arith))
point_after index c (suc j) (n ∷ ns) h lt le =
    rw (is_before-ltb index c h, not_before)
      (point_after index (c + 10) j ns h (omega arith) (omega arith))
  where
    not_before : ltb index c ≡ false
    not_before = ground arith

-- A positive index, in steps of ten, puts the entry in front of the sibling at the position
-- `index / 10`, counted from 0, and nowhere if there are no more siblings than that. A negative index
-- puts it in front of the first.
pub insert_point-get_elem? :
    (index : ℕ) (siblings : List ℕ)
    → insert_point index 10 siblings
      ≡ (if leb (2 ^ 31) index then get_elem? siblings 0 else get_elem? siblings (index / 10))
insert_point-get_elem? index siblings = elim (Bool-cases (leb (2 ^ 31) index)) [
  | inl e ↦ rw e (point_negative index 10 siblings e)
  | inr e ↦ rw e (point_after index 10 (index / 10) siblings e (omega arith) (omega arith))
]
