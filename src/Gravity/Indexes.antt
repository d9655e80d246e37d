-- ===== src/Gravity/Indexes.antt =====
-- The index sets of lists (blocklists.go).
use moreno_dnsleaf.Prelude.{
  ℕ, zero, suc, ◌+◌, ◌≤◌, ◌<◌, Bool, true, ◌&&◌, List, [], ◌∷◌, ◌≡◌, refl, ap, sym, ◌∙◌, arith, ltb,
  leb, ◌==◌, Bool-cases, ltb→lt, inl, inr, length, get_or, any, All,
}
use moreno_dnsleaf.Prelude.Text.{Str, str_eq, str_eq_iff, str_eq_refl, str_lt}
use moreno_dnsleaf.Prelude.Order.{str_lt_irrefl, str_lt_asym}
use moreno_dnsleaf.Gravity.{
  search_strings, search, list_indexes, gravity_index_set_contains, max_uint32,
}
use moreno_dnsleaf.Gravity.Search.{Splits, search-Splits}
use moreno_dnsleaf.Gravity.Sorted.{member, Ascending}
use moreno_dnsleaf.Gravity.Members.{Ascending-get_or, search_strings-eq, found-member}

abbrev has_index : ℕ → List ℕ → Bool
has_index i = any (λ k. k == i)

abbrev AscendingIndexes : List ℕ → Type 0
AscendingIndexes [] = Unit
AscendingIndexes (i ∷ is) = All (λ k. i < k) is × AscendingIndexes is

-- The test of `rebuildGravityListIndexesLocked` on a domain.
abbrev indexed : List Str → Str → Bool
indexed g d =
    ltb (search_strings g d) (length g)
    && str_eq (get_or g (search_strings g d) []) d
    && leb (search_strings g d) max_uint32

indexed-found :
    (g : List Str) (d : Str)
    → indexed g d ≡ true
    → (search_strings g d < length g) × (get_or g (search_strings g d) [] ≡ d)
indexed-found g d h = ground (arith, str_eq_iff (get_or g (search_strings g d) []) d)

module _ (g : List Str) (asc : Ascending g) where
  list_indexes-above :
      (d : Str) (ds : List Str)
      → All (λ y. str_lt d y ≡ true) ds
      → All (λ k. (k < length g) × (str_lt d (get_or g k []) ≡ true)) (list_indexes g ds)
  unfolding list_indexes
  list_indexes-above d [] h = tt
  list_indexes-above d (y ∷ ds) h = elim (Bool-cases (indexed g y)) [
    | inl t ↦
        let (lt, e) = indexed-found g y t in
        rw t ((lt, ap (str_lt d) e ∙ h.0), list_indexes-above d ds h.1)
    | inr f ↦ rw f (list_indexes-above d ds h.1)
  ]

  -- An index above a found one, by the order of the strings.
  index_lt :
      (i k : ℕ) (d : Str)
      → i < length g
      → get_or g i [] ≡ d
      → (k < length g) × (str_lt d (get_or g k []) ≡ true)
      → i < k
  index_lt i k d lt e h = elim (Bool-cases (ltb i k)) [
    | inl less ↦ ltb→lt i k less
    | inr ge ↦ elim (Bool-cases (ltb k i)) [
      | inl more ↦ absurd (
          ground (
            arith,
            Ascending-get_or g k i asc (ltb→lt k i more) lt,
            ap (str_lt (get_or g k [])) e,
            str_lt_asym d (get_or g k []),
          ))
      | inr same ↦
          let eq : i ≡ k = ground arith in
          absurd (
            cc (ap (str_lt d) e, ap (λ (t : ℕ). str_lt d (get_or g t [])) eq, h.1, str_lt_irrefl d))
    ]
  ]

  indexes_above :
      (i : ℕ) (d : Str) (is : List ℕ)
      → i < length g
      → get_or g i [] ≡ d
      → All (λ k. (k < length g) × (str_lt d (get_or g k []) ≡ true)) is
      → All (λ k. i < k) is
  indexes_above i d [] lt e h = tt
  indexes_above i d (k ∷ is) lt e h = (index_lt i k d lt e h.0, indexes_above i d is lt e h.1)

  pub list_indexes-Ascending : (ds : List Str) → Ascending ds → AscendingIndexes (list_indexes g ds)
  unfolding list_indexes
  list_indexes-Ascending [] h = tt
  list_indexes-Ascending (d ∷ ds) h = elim (Bool-cases (indexed g d)) [
    | inl t ↦
        let (lt, e) = indexed-found g d t in
        rw t (
          indexes_above (search_strings g d) d (list_indexes g ds) lt e
              (list_indexes-above d ds h.0),
          list_indexes-Ascending ds h.1,
        )
    | inr f ↦ rw f (list_indexes-Ascending ds h.1)
  ]

  indexed_iff :
      (i : ℕ) (d : Str)
      → i < length g
      → length g ≤ max_uint32 + 1
      → (indexed g d && search_strings g d == i) ≡ str_eq d (get_or g i [])
  indexed_iff i d lt fits = elim (Bool-cases (str_eq d (get_or g i []))) [
    | inl same ↦
        let e = (str_eq_iff _ _).0 same in
        rw (same, search_strings-eq g asc d i lt (sym e))
          (ground (arith, str_eq_iff (get_or g i []) d))
    | inr other ↦ rw other (elim (Bool-cases (indexed g d)) [
      | inr f ↦ rw f
      | inl t ↦ rw t (elim (Bool-cases (search_strings g d == i)) [
        | inr ne ↦ ne
        | inl eq ↦
            let e : search_strings g d ≡ i = ground arith in
            absurd (
              cc (
                str_eq_refl d,
                ap (str_eq d) (sym ((indexed-found g d t).1)),
                ap (λ (t : ℕ). str_eq d (get_or g t [])) e,
                other,
              ))
      ])
    ])
  ]

  has_index-list_indexes :
      (i : ℕ) (ds : List Str)
      → i < length g
      → length g ≤ max_uint32 + 1
      → has_index i (list_indexes g ds) ≡ member (get_or g i []) ds
  unfolding list_indexes
  has_index-list_indexes i [] lt fits = refl
  has_index-list_indexes i (d ∷ ds) lt fits =
      let rest = has_index-list_indexes i ds lt fits in
      let head = indexed_iff i d lt fits in
      elim (Bool-cases (indexed g d)) [
        | inl t ↦ rw t (ground (arith, rest, rw t at head))
        | inr f ↦ rw f (ground (arith, rest, rw f at head))
      ]

-- The numeric search.
All-get_or_index : (P : ℕ → Type 0) (l : List ℕ) (i : ℕ) → All P l → i < length l → P (get_or l i 0)
All-get_or_index P [] i h lt = absurd (omega arith)
All-get_or_index P (x ∷ l) zero h lt = h.0
All-get_or_index P (x ∷ l) (suc i) h lt = All-get_or_index P l i h.1 (omega arith)

AscendingIndexes-get_or :
    (l : List ℕ) (a b : ℕ) → AscendingIndexes l → a < b → b < length l → get_or l a 0 < get_or l b 0
AscendingIndexes-get_or [] a b h ab lt = absurd (omega arith)
AscendingIndexes-get_or (x ∷ l) a zero h ab lt = absurd (omega arith)
AscendingIndexes-get_or (x ∷ l) zero (suc b) h ab lt = All-get_or_index _ l b h.0 (omega arith)
AscendingIndexes-get_or (x ∷ l) (suc a) (suc b) h ab lt =
    AscendingIndexes-get_or l a b h.1 (omega arith) (omega arith)

index_position :
    (z : ℕ) (l : List ℕ) → has_index z l ≡ true → (i : ℕ) × (i < length l) × (get_or l i 0 ≡ z)
index_position z [] h = absurd (ground arith)
index_position z (x ∷ l) h = elim (Bool-cases (x == z)) [
  | inl here ↦ (0, omega arith, ground arith)
  | inr there ↦ let (i, lt, e) = index_position z l (ground arith) in (suc i, omega arith, e)
]

has_index-get_or : (l : List ℕ) (i : ℕ) → i < length l → has_index (get_or l i 0) l ≡ true
has_index-get_or [] i lt = absurd (omega arith)
has_index-get_or (x ∷ l) zero lt = ground arith
has_index-get_or (x ∷ l) (suc i) lt = ground (arith, has_index-get_or l i (omega arith))

module _ (l : List ℕ) (asc : AscendingIndexes l) (x : ℕ) where
  search_indexes-Splits :
      Splits (length l) (λ i. leb x (get_or l i 0)) (search (length l) (λ i. leb x (get_or l i 0)))
  search_indexes-Splits = search-Splits (length l) _ (λ a b ab bn h. elim (Bool-cases (ltb a b)) [
    | inl less ↦ ground (arith, AscendingIndexes-get_or l a b asc (ltb→lt a b less) bn)
    | inr same ↦ let e : a ≡ b = ground arith in rw (← e) h
  ])

  found_index_at :
      (k r : ℕ)
      → Splits (length l) (λ i. leb x (get_or l i 0)) r
      → k < length l
      → get_or l k 0 ≡ x
      → r ≡ k
  found_index_at k r s lt e = elim (Bool-cases (ltb r k)) [
    | inl early ↦ absurd (
        ground (
          arith,
          s.from r (omega arith) (omega (arith, ltb→lt r k early)),
          AscendingIndexes-get_or l r k asc (ltb→lt r k early) lt,
        ))
    | inr late ↦ elim (Bool-cases (ltb k r)) [
      | inl past ↦ absurd (ground (arith, s.below k (ltb→lt k r past)))
      | inr not_past ↦ ground arith
    ]
  ]

  found_index :
      (r : ℕ)
      → Splits (length l) (λ i. leb x (get_or l i 0)) r
      → (ltb r (length l) && get_or l r 0 == x) ≡ has_index x l
  found_index r s = elim (Bool-cases (has_index x l)) [
    | inl there ↦
        let (k, lt, e) = index_position x l there in
        let same = found_index_at k r s lt e in rw (there, same) (ground arith)
    | inr absent ↦ rw absent (elim (Bool-cases (ltb r (length l))) [
      | inr out ↦ rw out
      | inl within ↦ rw within (elim (Bool-cases (get_or l r 0 == x)) [
        | inr other ↦ other
        | inl same ↦
            let e : get_or l r 0 ≡ x = ground arith in
            absurd (
              cc
                (has_index-get_or l r (ltb→lt _ _ within), ap (λ (t : ℕ). has_index t l) e, absent))
      ])
    ])
  ]

found_parts :
    (g : List Str) (x : Str) (i : ℕ)
    → (ltb i (length g) && str_eq (get_or g i []) x) ≡ true
    → (i < length g) × (get_or g i [] ≡ x)
found_parts g x i h = ground (arith, str_eq_iff (get_or g i []) x)

-- The early return of `gravityIndexSetContainsLocked` is not taken for a domain of `gravity`.
within_bounds :
    (g : List Str) (is : List ℕ) (x : Str)
    → search_strings g x < length g
    → get_or g (search_strings g x) [] ≡ x
    → length g ≤ max_uint32 + 1
    → gravity_index_set_contains g is x ≡ (
        ltb (search (length is) (λ n. leb (search_strings g x) (get_or is n 0))) (length is)
        && get_or is (search (length is) (λ n. leb (search_strings g x) (get_or is n 0))) 0
          == search_strings g x)
unfolding gravity_index_set_contains
within_bounds g is x lt e fits = ground (arith, str_eq_iff (get_or g (search_strings g x) []) x)

-- The index set of a list decides membership in that list among the domains of `gravity`, as long
-- as every position fits 32 bits.
pub gravity_index_set_contains-list_indexes :
    (g ds : List Str) (x : Str)
    → Ascending g
    → Ascending ds
    → length g ≤ max_uint32 + 1
    → gravity_index_set_contains g (list_indexes g ds) x ≡ (member x g && member x ds)
gravity_index_set_contains-list_indexes g ds x ga da fits =
    let i = search_strings g x in
    let found = found-member g ga x in
    elim (Bool-cases (member x g)) [
      | inr absent ↦ rw absent (unfold gravity_index_set_contains in ground arith)
      | inl there ↦ rw there (
          let (lt, e) = found_parts g x i (found ∙ there) in
          let numeric =
            found_index (list_indexes g ds) (list_indexes-Ascending g ga ds da) i _
              (search_indexes-Splits (list_indexes g ds) (list_indexes-Ascending g ga ds da) i) in
          let has = has_index-list_indexes g ga i ds lt fits in
          within_bounds g (list_indexes g ds) x lt e fits
          ∙ numeric
          ∙ has
          ∙ ap (λ (t : Str). member t ds) e)
    ]
