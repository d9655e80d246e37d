-- ===== src/Tests/Ranges.antt =====
-- An iteration order of a map that has the laws of Go's `range`.
use moreno_dnsleaf.Prelude.{
  true, [], ◌∷◌, Option, none, some, length, All, is_some, ◌≡◌, refl, arith, ap, ◌∙◌, Bool-cases,
  inl, inr,
}
use moreno_dnsleaf.Prelude.Map.{Map, get, IsRange}
use moreno_dnsleaf.Prelude.Text.{Str, str_eq, str_eq_refl, eq_of_str_eq}

module _ {V : Type 0} where
  abbrev value_or : Option V → V → V
  value_or none v = v
  value_or (some w) v = w

  -- The keys of `rest` with the values of `whole`.
  abbrev entries : Map V → Map V → Map V
  entries whole [] = []
  entries whole ((k, v) ∷ rest) = (k, value_or (get k whole) v) ∷ entries whole rest

  abbrev pub in_order : Map V → Map V
  in_order m = entries m m

  -- Each key of the second map is one of the first.
  abbrev HasAll : Map V → Map V → Type 0
  HasAll whole rest = (k : Str) → is_some (get k rest) ≡ true → is_some (get k whole) ≡ true

  HasAll-tail :
      (whole rest : Map V) (k : Str) (v : V) → HasAll whole ((k, v) ∷ rest) → HasAll whole rest
  unfolding get
  HasAll-tail whole rest k v h j e = h j (ground (arith, e))

  get-value_or :
      (k : Str) (v : V) (whole : Map V)
      → is_some (get k whole) ≡ true
      → get k whole ≡ some (value_or (get k whole) v)
  get-value_or k v whole h = go (get k whole) h
    where
      go : (o : Option V) → is_some o ≡ true → o ≡ some (value_or o v)
      go none h = ground (arith, h)
      go (some w) h = refl

  is_head : (k : Str) (v : V) (rest : Map V) → is_some (get k ((k, v) ∷ rest)) ≡ true
  unfolding get
  is_head k v rest = rw (str_eq_refl k) refl

  entries-visits :
      (whole rest : Map V)
      → HasAll whole rest
      → All (λ e. get e.0 whole ≡ some e.1) (entries whole rest)
  entries-visits whole [] h = tt
  entries-visits whole ((k, v) ∷ rest) h = (
    get-value_or k v whole (h k (is_head k v rest)),
    entries-visits whole rest (HasAll-tail whole rest k v h),
  )

  entries-covers :
      (whole rest : Map V) (k : Str) (v : V)
      → get k whole ≡ some v
      → is_some (get k rest) ≡ true
      → get k (entries whole rest) ≡ some v
  unfolding get
  entries-covers whole [] k v g e = ground (arith, e)
  entries-covers whole ((j, w) ∷ rest) k v g e = elim (Bool-cases (str_eq j k)) [
    | inl here ↦
        rw here (ap (λ o. some (value_or o w)) (ap (λ x. get x whole) (eq_of_str_eq j k here) ∙ g))
    | inr there ↦ rw there (entries-covers whole rest k v g (ground (arith, e, there)))
  ]

  entries-counts : (whole rest : Map V) → length (entries whole rest) ≡ length rest
  entries-counts whole [] = refl
  entries-counts whole ((k, v) ∷ rest) = ground (arith, entries-counts whole rest)

  pub in_order-IsRange : IsRange {V = V} in_order
  in_order-IsRange = record {
    visits = λ m. entries-visits m m (λ k h. h);
    covers = λ m k v g. entries-covers m m k v g (ap is_some g);
    counts = λ m. entries-counts m m;
  }
