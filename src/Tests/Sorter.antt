-- ===== src/Tests/Sorter.antt =====
-- A sort by insertion, in the place of `qsort`.
use mathlib.Core.List.{Perm}
use mathlib.Core.List.Perm
use flowstatd.Base.{◌≤◌, arith, leb, if◌then◌else◌, Bool-cases, inl, inr, List, [], ◌∷◌}
use flowstatd.Flow.{HostFlow}
use flowstatd.Report.{host_flow_cmp, IsNotAbove, IsOrdered, Qsort}
use flowstatd.Report.Order.{host_flow_cmp_iff}

abbrev insert : HostFlow → List HostFlow → List HostFlow
insert x [] = x ∷ []
insert x (y ∷ ys) =
    let rest = insert x ys in if leb y.nflow.sum x.nflow.sum then x ∷ y ∷ ys else y ∷ rest

abbrev insertion_sort : List HostFlow → List HostFlow
insertion_sort [] = []
insertion_sort (x ∷ xs) = insert x (insertion_sort xs)

insert-perm : (x : HostFlow) (ys : List HostFlow) → Perm (insert x ys) (x ∷ ys)
insert-perm x [] = Perm.rfl
insert-perm x (y ∷ ys) = elim (Bool-cases (leb y.nflow.sum x.nflow.sum)) [
  | inl e ↦ rw e Perm.rfl
  | inr e ↦ rw e (Perm.trans (Perm.cons y (insert-perm x ys)) (Perm.swap x y ys))
]

pub insertion_sort-perm : (xs : List HostFlow) → Perm (insertion_sort xs) xs
insertion_sort-perm [] = Perm.rfl
insertion_sort-perm (x ∷ xs) =
    Perm.trans (insert-perm x (insertion_sort xs)) (Perm.cons x (insertion_sort-perm xs))

not_above : (a b : HostFlow) → b.nflow.sum ≤ a.nflow.sum → IsNotAbove (host_flow_cmp a b)
not_above a b h = (host_flow_cmp_iff a b).1 h

cons-IsOrdered :
    (x y : HostFlow) (ys : List HostFlow)
    → IsOrdered host_flow_cmp (y ∷ ys)
    → y.nflow.sum ≤ x.nflow.sum
    → IsOrdered host_flow_cmp (x ∷ y ∷ ys)
cons-IsOrdered x y ys o h = (not_above x y h, o)

insert_below :
    (y x : HostFlow) (ys : List HostFlow)
    → x.nflow.sum ≤ y.nflow.sum
    → IsOrdered host_flow_cmp (y ∷ ys)
    → IsOrdered host_flow_cmp (y ∷ insert x ys)
insert_below y x [] h o = (not_above y x h, tt)
insert_below y x (z ∷ zs) h o = elim (Bool-cases (leb z.nflow.sum x.nflow.sum)) [
  | inl e ↦ rw e (not_above y x h, (not_above x z (ground arith), o.1))
  | inr e ↦ rw e (o.0, insert_below z x zs (ground arith) o.1)
]

insert-IsOrdered :
    (x : HostFlow) (ys : List HostFlow)
    → IsOrdered host_flow_cmp ys
    → IsOrdered host_flow_cmp (insert x ys)
insert-IsOrdered x [] o = tt
insert-IsOrdered x (y ∷ ys) o = elim (Bool-cases (leb y.nflow.sum x.nflow.sum)) [
  | inl e ↦ rw e (cons-IsOrdered x y ys o (ground arith))
  | inr e ↦ rw e (insert_below y x ys (ground arith) o)
]

pub insertion_sort-IsOrdered : (xs : List HostFlow) → IsOrdered host_flow_cmp (insertion_sort xs)
insertion_sort-IsOrdered [] = tt
insertion_sort-IsOrdered (x ∷ xs) =
    insert-IsOrdered x (insertion_sort xs) (insertion_sort-IsOrdered xs)

abbrev pub sorter : Qsort
sorter = record {
  qsort = insertion_sort;
  qsort-perm = insertion_sort-perm;
  qsort-IsOrdered = insertion_sort-IsOrdered;
}
