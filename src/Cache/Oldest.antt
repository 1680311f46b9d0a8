-- ===== src/Cache/Oldest.antt =====
-- cache.rs: the entry that makes room.
use mathlib.Core.Path.{subst}
use maharit_db.Base.{
  ℕ, ◌≤◌, ◌+◌, String, true, Option, none, some, [], ◌∷◌, All, ◌≡◌, ◌∙◌, refl, sym, ap, arith, inl,
  inr, ◌⊎◌, Bool-cases, Option-cases, leb, leb→le, length,
}
use maharit_db.Base.Eq.{◌==◌, string_eq, eq_of_==, ==_refl}
use maharit_db.Base.Map
use maharit_db.Base.Map.{Map, lookup-insert, lookup-remove}
use maharit_db.Cache.{older, oldest, evict_lru}

module _ {A : Type 0} where
  -- no key stands twice
  abbrev pub Keyed : Map String A → Type 0
  Keyed [] = Unit
  Keyed ((key, x) ∷ m) = (Map.lookup key m ≡ none) × Keyed m

  pub remove-Keyed : (key : String) (m : Map String A) → Keyed m → Keyed (Map.remove key m)
  unfolding Map.remove
  remove-Keyed key [] k = tt
  remove-Keyed key ((j, x) ∷ m) (new, k) = elim (Bool-cases (j == key)) [
    | inl e ↦ rw e (remove-Keyed key m k)
    | inr e ↦ rw e (rw (lookup-remove key j m, new) (ground arith), remove-Keyed key m k)
  ]

  pub insert-Keyed :
      (key : String) (x : A) (m : Map String A) → Keyed m → Keyed (Map.insert key x m)
  unfolding Map.insert Map.lookup
  insert-Keyed key x [] k = (refl, tt)
  insert-Keyed key x ((j, y) ∷ m) (new, k) = elim (Bool-cases (j == key)) [
    | inl e ↦ let q = eq_of_== j key e in rw e (ap (λ z. Map.lookup z m) (sym q) ∙ new, k)
    | inr e ↦ rw e (
      lookup-insert key j x m ∙ elim (Bool-cases (key == j)) [
        | inl p ↦
            let both : (j == key) ≡ true = ap (λ z. j == z) (eq_of_== key j p) ∙ ==_refl j in
            absurd (ground arith)
        | inr p ↦ rw p new
      ],
      insert-Keyed key x m k,
    )
  ]

  pub length-insert :
      (key : String) (x : A) (m : Map String A) → length (Map.insert key x m) ≤ length m + 1
  unfolding Map.insert
  length-insert key x [] = omega arith
  length-insert key x ((j, y) ∷ m) = elim (Bool-cases (j == key)) [
    | inl e ↦ rw e (omega arith)
    | inr e ↦ rw e (omega (arith, length-insert key x m))
  ]

  pub length-replace :
      (key : String) (x y : A) (m : Map String A)
      → Map.lookup key m ≡ some y
      → length (Map.insert key x m) ≡ length m
  unfolding Map.insert Map.lookup
  length-replace key x y [] h = absurd (ground arith)
  length-replace key x y ((j, z) ∷ m) h = elim (Bool-cases (j == key)) [
    | inl e ↦ rw e refl
    | inr e ↦ rw e (let r = length-replace key x y m (ground arith) in omega arith)
  ]

  pub length-remove : (key : String) (m : Map String A) → length (Map.remove key m) ≤ length m
  unfolding Map.remove
  length-remove key [] = omega arith
  length-remove key ((j, y) ∷ m) = elim (Bool-cases (j == key)) [
    | inl e ↦ rw e (omega (arith, length-remove key m))
    | inr e ↦ rw e (omega (arith, length-remove key m))
  ]

  pub length-remove_there :
      (key : String) (y : A) (m : Map String A)
      → Map.lookup key m ≡ some y
      → length (Map.remove key m) + 1 ≤ length m
  unfolding Map.remove Map.lookup
  length-remove_there key y [] h = absurd (ground arith)
  length-remove_there key y ((j, z) ∷ m) h = elim (Bool-cases (j == key)) [
    | inl e ↦ rw e (omega (arith, length-remove key m))
    | inr e ↦ rw e (let r = length-remove_there key y m (ground arith) in omega arith)
  ]

  lookup-All :
      (bound : ℕ) (stamp : A → ℕ) (m : Map String A) (key : String) (y : A)
      → All (λ (x : String × A). bound ≤ stamp x.1) m
      → Map.lookup key m ≡ some y
      → bound ≤ stamp y
  unfolding Map.lookup
  lookup-All bound stamp [] key y all h = absurd (ground arith)
  lookup-All bound stamp ((j, z) ∷ m) key y (b, all) h = elim (Bool-cases (j == key)) [
    | inl e ↦ let same : z ≡ y = ground arith in subst (λ w. bound ≤ stamp w) same b
    | inr e ↦ lookup-All bound stamp m key y all (ground arith)
  ]

  lookup-here : (j : String) (z : A) (m : Map String A) → Map.lookup j ((j, z) ∷ m) ≡ some z
  unfolding Map.lookup
  lookup-here j z m = rw (==_refl j) refl

  lookup-past :
      (j key : String) (z y : A) (m : Map String A)
      → Map.lookup j m ≡ none
      → Map.lookup key m ≡ some y
      → Map.lookup key ((j, z) ∷ m) ≡ some y
  unfolding Map.lookup
  lookup-past j key z y m new found = elim (Bool-cases (j == key)) [
    | inl p ↦
        let clash : some y ≡ none =
          sym found ∙ (ap (λ w. Map.lookup w m) (sym (eq_of_== j key p)) ∙ new) in
        absurd (ground arith)
    | inr p ↦ rw p found
  ]

module _ {A : Type 0} (stamp : A → ℕ) where
  abbrev Least : String × A → Map String A → Type 0
  Least x m = (Map.lookup x.0 m ≡ some x.1) × All (λ (y : String × A). stamp x.1 ≤ stamp y.1) m

  all_later :
      (a b : ℕ) (m : Map String A)
      → a ≤ b
      → All (λ (y : String × A). b ≤ stamp y.1) m
      → All (λ (y : String × A). a ≤ stamp y.1) m
  all_later a b [] le all = tt
  all_later a b (y ∷ m) le (h, all) = (omega arith, all_later a b m le all)

  abbrev pub Eldest : Map String A → Option (String × A) → Type 0
  Eldest m none = m ≡ []
  Eldest m (some x) = Least x m

  oldest-Eldest : (m : Map String A) → Keyed m → Eldest m (oldest stamp m)
  unfolding oldest
  oldest-Eldest [] k = refl
  oldest-Eldest ((j, z) ∷ m) (new, k) = chosen (oldest stamp m) (oldest-Eldest m k)
    where
      chosen : (o : Option (String × A)) → Eldest m o → Eldest ((j, z) ∷ m) (older stamp (j, z) o)
      chosen none e = (
        lookup-here j z m,
        (omega arith, subst (λ w. All (λ (y : String × A). stamp z ≤ stamp y.1) w) (sym e) tt),
      )
      chosen (some y) (found, all) = elim (Bool-cases (leb (stamp z) (stamp y.1))) [
        | inl l ↦ rw l (
          lookup-here j z m,
          (omega arith, all_later (stamp z) (stamp y.1) m (leb→le (stamp z) (stamp y.1) l) all),
        )
        | inr l ↦ rw l (lookup-past j y.0 z y.1 m new found, (ground arith, all))
      ]

  -- Where no key stands twice, `evict_lru` removes exactly one entry, and no entry was used
  -- longer ago; it changes nothing only if there is no entry.
  pub evict_lru-oldest :
      (m : Map String A)
      → Keyed m
      → ((m ≡ []) × (evict_lru stamp m ≡ m))
        ⊎ ((key : String) × (entry : A) × (Map.lookup key m ≡ some entry)
            × (evict_lru stamp m ≡ Map.remove key m)
            × (length (evict_lru stamp m) + 1 ≤ length m)
            × ((other : String) (e : A) → Map.lookup other m ≡ some e → stamp entry ≤ stamp e))
  evict_lru-oldest m k = elim (Option-cases (oldest stamp m)) [
    | inl e ↦
        let empty : Eldest m none = subst (Eldest m) e (oldest-Eldest m k) in
        inl (empty, unfold evict_lru in rw (e, evict_lru) refl)
    | inr (x, e) ↦
        let (found, least) : Least x m = subst (Eldest m) e (oldest-Eldest m k) in
        let gone : evict_lru stamp m ≡ Map.remove x.0 m =
          unfold evict_lru in rw (e, evict_lru) refl in
        inr (
          x.0,
          x.1,
          found,
          gone,
          rw gone (length-remove_there x.0 x.1 m found),
          λ other y h. lookup-All (stamp x.1) stamp m other y least h,
        )
  ]
