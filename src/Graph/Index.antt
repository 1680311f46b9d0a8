-- ===== src/Graph/Index.antt =====
-- graph.rs: the label index, read through the set of each label.
use maharit_db.Base.{
  ℕ, String, Bool, true, false, not, ◌&&◌, ◌||◌, List, [], ◌∷◌, ◌≡◌, refl, sym, ◌∙◌, arith, inl,
  inr, Bool-cases, Option-cases,
}
use maharit_db.Base.Eq.{◌==◌, nat_eq, string_eq, eq_of_==}
use maharit_db.Base.Map
use maharit_db.Base.Map.{Map, lookup-insert, lookup-remove}
use maharit_db.Base.Set
use maharit_db.Base.Set.{contains-insert, contains-remove}
use maharit_db.Graph.{
  sets_of, is_empty, index_insert, index_insert_all, index_remove, index_remove_all,
}

-- whether the index lists the node under the label
abbrev pub listed : Map String (List ℕ) → String → ℕ → Bool
listed index label i = Set.contains i (sets_of (Map.lookup label index))

pub listed-insert :
    (id : ℕ) (label : String) (index : Map String (List ℕ)) (l : String) (i : ℕ)
    → listed (index_insert id label index) l i ≡ ((label == l) && (id == i) || listed index l i)
unfolding index_insert
listed-insert id label index l i = rw lookup-insert (elim (Bool-cases (label == l)) [
  | inl e ↦ rw (e, contains-insert, eq_of_== label l e)
  | inr e ↦ rw e
])

pub listed-insert_all :
    (id : ℕ) (labels : List String) (index : Map String (List ℕ)) (l : String) (i : ℕ)
    → listed (index_insert_all id labels index) l i
      ≡ (Set.contains l labels && (id == i) || listed index l i)
unfolding index_insert_all Set.contains
listed-insert_all id [] index l i = refl
listed-insert_all id (label ∷ labels) index l i =
    rw (listed-insert_all id labels (index_insert id label index) l i, listed-insert)
      (or_and (label == l) (Set.contains l labels) (id == i) (listed index l i))
  where
    or_and : (a b c d : Bool) → (b && c || (a && c || d)) ≡ ((a || b) && c || d)
    or_and true true true d = refl
    or_and true true false d = refl
    or_and true false true d = refl
    or_and true false false d = refl
    or_and false b c d = refl

no_member : (set : List ℕ) (i : ℕ) → is_empty set ≡ true → Set.contains i set ≡ false
unfolding Set.contains
no_member [] i h = refl
no_member (x ∷ xs) i h = cc

empty_set : (i : ℕ) → Set.contains i [] ≡ false
unfolding Set.contains
empty_set i = refl

pub listed-remove :
    (id : ℕ) (label : String) (index : Map String (List ℕ)) (l : String) (i : ℕ)
    → listed (index_remove id label index) l i
      ≡ (not ((label == l) && (id == i)) && listed index l i)
unfolding index_remove
listed-remove id label index l i = elim (Option-cases (Map.lookup label index)) [
  | inl e ↦
      rw (e, index_remove)
        (elim (Bool-cases (label == l)) [
          | inl p ↦ rw (p, ← eq_of_== label l p, e) (unfold Set.contains in ground arith)
          | inr p ↦ rw p
        ])
  | inr (set, e) ↦
      rw (e, index_remove)
        (elim (Bool-cases (is_empty (Set.remove id set))) [
          | inl q ↦
              rw (q, lookup-remove)
                (elim (Bool-cases (label == l)) [
                  | inl p ↦
                      rw (p, ← eq_of_== label l p, e)
                        (empty_set i
                          ∙ sym (no_member (Set.remove id set) i q)
                          ∙ contains-remove id i set)
                  | inr p ↦ rw p
                ])
          | inr q ↦
              rw (q, lookup-insert)
                (elim (Bool-cases (label == l)) [
                  | inl p ↦ rw (p, contains-remove, ← eq_of_== label l p, e)
                  | inr p ↦ rw p
                ])
        ])
]

pub listed-remove_all :
    (id : ℕ) (labels : List String) (index : Map String (List ℕ)) (l : String) (i : ℕ)
    → listed (index_remove_all id labels index) l i
      ≡ (not (Set.contains l labels && (id == i)) && listed index l i)
unfolding index_remove_all Set.contains
listed-remove_all id [] index l i = refl
listed-remove_all id (label ∷ labels) index l i =
    rw (listed-remove_all id labels (index_remove id label index) l i, listed-remove)
      (not_or_and (label == l) (Set.contains l labels) (id == i) (listed index l i))
  where
    not_or_and :
        (a b c d : Bool) → (not (b && c) && (not (a && c) && d)) ≡ (not ((a || b) && c) && d)
    not_or_and true true true d = refl
    not_or_and true true false d = refl
    not_or_and true false true d = refl
    not_or_and true false false d = refl
    not_or_and false true true d = refl
    not_or_and false true false d = refl
    not_or_and false false c d = refl
