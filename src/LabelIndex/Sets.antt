-- ===== src/LabelIndex/Sets.antt =====
-- index.rs: maps of sets, none of which is empty.
use maharit_db.Base.{
  Bool, true, false, not, ◌&&◌, ◌||◌, none, some, List, [], ◌∷◌, ◌≡◌, ◌∙◌, refl, sym, ap, arith,
  inl, inr, Bool-cases, Option-cases,
}
use maharit_db.Base.Eq.{HashKey, ◌==◌, eq_of_==}
use maharit_db.Base.Map
use maharit_db.Base.Map.{Map, lookup-insert, lookup-remove}
use maharit_db.Base.Set
use maharit_db.Base.Set.{contains-insert, contains-remove}
use maharit_db.LabelIndex.{or_empty, is_empty, insert_at, remove_at}

none_in :
    {A : Type 0} ⦃a : HashKey A⦄ (xs : List A) (y : A)
    → is_empty xs ≡ true
    → Set.contains y xs ≡ false
unfolding Set.contains
none_in [] y h = refl
none_in (x ∷ xs) y h = absurd (ground arith)

insert_filled :
    {A : Type 0} ⦃a : HashKey A⦄ (x : A) (xs : List A) → is_empty (Set.insert x xs) ≡ false
unfolding Set.insert Set.contains
insert_filled x [] = refl
insert_filled x (y ∷ ys) = elim (Bool-cases (Set.contains x (y ∷ ys))) [
  | inl e ↦ rw e refl
  | inr e ↦ rw e refl
]

module _ {K A : Type 0} ⦃k : HashKey K⦄ ⦃a : HashKey A⦄ where
  -- is `x` in the set of the key?
  abbrev pub member : K → A → Map K (List A) → Bool
  member key x m = Set.contains x (or_empty (Map.lookup key m))

  abbrev pub NoneEmpty : Map K (List A) → Type 0
  NoneEmpty m = (key : K) (set : List A) → Map.lookup key m ≡ some set → is_empty set ≡ false

  pub member-insert_at :
      (key other : K) (x y : A) (m : Map K (List A))
      → member other y (insert_at key x m) ≡ (((key == other) && (x == y)) || member other y m)
  unfolding insert_at
  member-insert_at key other x y m =
      rw (lookup-insert key other (Set.insert x (or_empty (Map.lookup key m))) m)
        (elim (Bool-cases (key == other)) [
          | inl e ↦
              let q = eq_of_== key other e in
              rw e (
                contains-insert x y (or_empty (Map.lookup key m))
                ∙ ap (λ z. (x == y) || Set.contains y (or_empty (Map.lookup z m))) q)
          | inr e ↦ rw e refl
        ])

  remove_at-kept :
      (key : K) (x : A) (m : Map K (List A)) (set : List A)
      → Map.lookup key m ≡ some set
      → is_empty (Set.remove x set) ≡ false
      → remove_at key x m ≡ Map.insert key (Set.remove x set) m
  unfolding remove_at
  remove_at-kept key x m set found full = rw (found, remove_at) (rw full refl)

  remove_at-gone :
      (key : K) (x : A) (m : Map K (List A)) (set : List A)
      → Map.lookup key m ≡ some set
      → is_empty (Set.remove x set) ≡ true
      → remove_at key x m ≡ Map.remove key m
  unfolding remove_at
  remove_at-gone key x m set found full = rw (found, remove_at) (rw full refl)

  remove_at-none :
      (key : K) (x : A) (m : Map K (List A)) → Map.lookup key m ≡ none → remove_at key x m ≡ m
  unfolding remove_at
  remove_at-none key x m found = rw (found, remove_at) refl

  pub member-remove_at :
      (key other : K) (x y : A) (m : Map K (List A))
      → member other y (remove_at key x m) ≡ (not ((key == other) && (x == y)) && member other y m)
  member-remove_at key other x y m = elim (Option-cases (Map.lookup key m)) [
    | inl e ↦ rw (remove_at-none key x m e) (elim (Bool-cases (key == other)) [
      | inl p ↦
          let q = eq_of_== key other p in
          let e' : Map.lookup other m ≡ none = ap (λ z. Map.lookup z m) (sym q) ∙ e in
          rw (p, e') (unfold Set.contains in ground arith)
      | inr p ↦ rw p refl
    ])
    | inr (set, e) ↦ elim (Bool-cases (is_empty (Set.remove x set))) [
      | inl g ↦
          rw (remove_at-gone key x m set e g, lookup-remove)
            (elim (Bool-cases (key == other)) [
              | inl p ↦
                  let q = eq_of_== key other p in
                  let e' : Map.lookup other m ≡ some set = ap (λ z. Map.lookup z m) (sym q) ∙ e in
                  let gone = none_in (Set.remove x set) y g in
                  let c = contains-remove x y set in
                  rw (p, e') (unfold Set.contains in ground arith)
              | inr p ↦ rw p refl
            ])
      | inr g ↦
          rw (remove_at-kept key x m set e g, lookup-insert)
            (elim (Bool-cases (key == other)) [
              | inl p ↦
                  let q = eq_of_== key other p in
                  let e' : Map.lookup other m ≡ some set = ap (λ z. Map.lookup z m) (sym q) ∙ e in
                  rw (p, e') (contains-remove x y set)
              | inr p ↦ rw p refl
            ])
    ]
  ]

  insert-NoneEmpty :
      (key : K) (set : List A) (m : Map K (List A))
      → is_empty set ≡ false
      → NoneEmpty m
      → NoneEmpty (Map.insert key set m)
  insert-NoneEmpty key set m full all other s h =
      let l = lookup-insert key other set m in
      elim (Bool-cases (key == other)) [
        | inl p ↦ let same : set ≡ s = ground (arith, l, h, p) in sym (ap is_empty same) ∙ full
        | inr p ↦ all other s (ground (arith, l, h, p))
      ]

  pub remove-NoneEmpty : (key : K) (m : Map K (List A)) → NoneEmpty m → NoneEmpty (Map.remove key m)
  remove-NoneEmpty key m all other s h =
      let l = lookup-remove key other m in
      elim (Bool-cases (key == other)) [
        | inl p ↦ absurd (ground (arith, l, h, p))
        | inr p ↦ all other s (ground (arith, l, h, p))
      ]

  pub insert_at-NoneEmpty :
      (key : K) (x : A) (m : Map K (List A)) → NoneEmpty m → NoneEmpty (insert_at key x m)
  unfolding insert_at
  insert_at-NoneEmpty key x m all =
      insert-NoneEmpty key (Set.insert x (or_empty (Map.lookup key m))) m
        (insert_filled x (or_empty (Map.lookup key m))) all

  pub remove_at-NoneEmpty :
      (key : K) (x : A) (m : Map K (List A)) → NoneEmpty m → NoneEmpty (remove_at key x m)
  remove_at-NoneEmpty key x m all = elim (Option-cases (Map.lookup key m)) [
    | inl e ↦ rw (remove_at-none key x m e) all
    | inr (set, e) ↦ elim (Bool-cases (is_empty (Set.remove x set))) [
      | inl g ↦ rw (remove_at-gone key x m set e g) (remove-NoneEmpty key m all)
      | inr g ↦
          rw (remove_at-kept key x m set e g) (insert-NoneEmpty key (Set.remove x set) m g all)
    ]
  ]
