-- ===== src/Telemetry/Storage/Tables/Rows.antt =====
-- Laws of the lookups under inserts and row updates, for tables with a numeric key.
use cislunar_ground_platform.Base.{
  ℕ, false, Option, none, some, List, [], ◌∷◌, map, ◌==◌, ◌≡◌, ◌≢◌, refl, sym, subst, ◌∙◌, arith,
  inl, inr, Bool-cases, ==_iff,
}
use cislunar_ground_platform.Telemetry.Storage.Tables.{find, replace, is_some}

module _ {A : Type 0} (key : A → ℕ) where
  -- The lookup by key.
  abbrev pub row : ℕ → List A → Option A
  row i xs = find (λ x. key x == i) xs

  -- The row update by key.
  abbrev pub put : A → List A → List A
  put y xs = replace (λ x. key x == key y) y xs

  pub row-put_self :
      (y x : A) (xs : List A) → row (key y) xs ≡ some x → row (key y) (put y xs) ≡ some y
  unfolding find replace
  row-put_self y x [] h = cc
  row-put_self y x (z ∷ xs) h = ground (arith, row-put_self y x xs)

  pub row-put_ne : (i : ℕ) (y : A) (xs : List A) → key y ≢ i → row i (put y xs) ≡ row i xs
  unfolding find replace
  row-put_ne i y [] h = refl
  row-put_ne i y (z ∷ xs) h = ground (arith, row-put_ne i y xs h)

  pub row-key : (i : ℕ) (x : A) (xs : List A) → row i xs ≡ some x → key x ≡ i
  unfolding find
  row-key i x [] h = cc
  row-key i x (z ∷ xs) h = ground (arith, row-key i x xs)

  pub row-cons_ne :
      (i : ℕ) (y x : A) (xs : List A)
      → is_some (row (key y) xs) ≡ false
      → row i xs ≡ some x
      → row i (y ∷ xs) ≡ some x
  unfolding find
  row-cons_ne i y x xs new h = elim (Bool-cases (key y == i)) [
    | inl e ↦ cc (new, h, (==_iff (key y) i).0 e)
    | inr e ↦ rw e h
  ]

  pub row-map :
      (i : ℕ) (f : A → A) (xs : List A)
      → ((x : A) → key (f x) ≡ key x)
      → row i (map f xs) ≡ (elim (row i xs) [ none ↦ none | some x ↦ some (f x) ])
  unfolding find
  row-map i f [] h = refl
  row-map i f (z ∷ xs) h = ground (arith, h z, row-map i f xs h)

  -- Each row of the first table is still there, changed at most as `R` allows.
  abbrev pub Keeps : (A → A → Type 0) → List A → List A → Type 0
  Keeps R xs ys = (i : ℕ) (x : A) → row i xs ≡ some x → (y : A) × (row i ys ≡ some y) × R x y

  pub Keeps-refl : (R : A → A → Type 0) (xs : List A) → ((x : A) → R x x) → Keeps R xs xs
  Keeps-refl R xs r i x h = (x, h, r x)

  pub Keeps-cons :
      (R : A → A → Type 0) (y : A) (xs : List A)
      → ((x : A) → R x x)
      → is_some (row (key y) xs) ≡ false
      → Keeps R xs (y ∷ xs)
  Keeps-cons R y xs r new i x h = (x, row-cons_ne i y x xs new h, r x)

  pub Keeps-put :
      (R : A → A → Type 0) (y x : A) (xs : List A)
      → ((x : A) → R x x)
      → row (key y) xs ≡ some x
      → R x y
      → Keeps R xs (put y xs)
  Keeps-put R y x xs r found change i z h = elim (Bool-cases (key y == i)) [
    | inl e ↦
        let same : key y ≡ i = (==_iff (key y) i).0 e in
        let there : row (key y) xs ≡ some z = subst (λ k. row k xs ≡ some z) (sym same) h in
        (
          y,
          subst (λ k. row k (put y xs) ≡ some y) same (row-put_self y x xs found),
          subst (λ w. R w y) (cc (found, there)) change,
        )
    | inr e ↦ (z, row-put_ne i y xs (different e) ∙ h, r z)
  ]
    where
      different : (key y == i) ≡ false → key y ≢ i
      different e same = cc (e, (==_iff (key y) i).1 same)

  pub Keeps-trans :
      (R : A → A → Type 0) (xs ys zs : List A)
      → ((x y z : A) → R x y → R y z → R x z)
      → Keeps R xs ys
      → Keeps R ys zs
      → Keeps R xs zs
  Keeps-trans R xs ys zs trans k l i x h =
      let (y, hy, r) = k i x h in let (z, hz, s) = l i y hy in (z, hz, trans x y z r s)

  pub Keeps-map :
      (R : A → A → Type 0) (f : A → A) (xs : List A)
      → ((x : A) → key (f x) ≡ key x)
      → ((x : A) → R x (f x))
      → Keeps R xs (map f xs)
  Keeps-map R f xs same change i x h = (f x, row-map i f xs same ∙ rw h refl, change x)
