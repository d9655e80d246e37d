-- ===== src/Gravity/Members.antt =====
-- The binary search of `gravityContainsLocked` (blocklists.go).
use moreno_dnsleaf.Prelude.{
  ℕ, zero, suc, ◌<◌, true, not, ◌&&◌, List, [], ◌∷◌, ◌≡◌, ap, arith, ltb, Bool-cases, ltb→lt, inl,
  inr, length, get_or, All,
}
use moreno_dnsleaf.Prelude.Text.{Str, str_eq, str_eq_iff, str_eq_refl, str_lt}
use moreno_dnsleaf.Prelude.Order.{str_lt_irrefl, str_lt_trans}
use moreno_dnsleaf.Gravity.{search_strings, gravity_contains}
use moreno_dnsleaf.Gravity.Search.{Splits, search-Splits}
use moreno_dnsleaf.Gravity.Sorted.{member, Ascending}

All-get_or : (P : Str → Type 0) (l : List Str) (i : ℕ) → All P l → i < length l → P (get_or l i [])
All-get_or P [] i h lt = absurd (omega arith)
All-get_or P (x ∷ l) zero h lt = h.0
All-get_or P (x ∷ l) (suc i) h lt = All-get_or P l i h.1 (omega arith)

pub Ascending-get_or :
    (l : List Str) (a b : ℕ)
    → Ascending l
    → a < b
    → b < length l
    → str_lt (get_or l a []) (get_or l b []) ≡ true
Ascending-get_or [] a b h ab lt = absurd (omega arith)
Ascending-get_or (x ∷ l) a zero h ab lt = absurd (omega arith)
Ascending-get_or (x ∷ l) zero (suc b) h ab lt = All-get_or _ l b h.0 (omega arith)
Ascending-get_or (x ∷ l) (suc a) (suc b) h ab lt =
    Ascending-get_or l a b h.1 (omega arith) (omega arith)

-- The position of a member.
pub position :
    (z : Str) (l : List Str) → member z l ≡ true → (i : ℕ) × (i < length l) × (get_or l i [] ≡ z)
position z [] h = absurd (ground arith)
position z (x ∷ l) h = elim (Bool-cases (str_eq x z)) [
  | inl here ↦ (0, omega arith, (str_eq_iff x z).0 here)
  | inr there ↦ let (i, lt, e) = position z l (ground arith) in (suc i, omega arith, e)
]

member-get_or : (l : List Str) (i : ℕ) → i < length l → member (get_or l i []) l ≡ true
member-get_or [] i lt = absurd (omega arith)
member-get_or (x ∷ l) zero lt = rw (str_eq_refl x)
member-get_or (x ∷ l) (suc i) lt = ground (arith, member-get_or l i (omega arith))

module _ (l : List Str) (asc : Ascending l) (x : Str) where
  search_strings-Splits :
      Splits (length l) (λ i. not (str_lt (get_or l i []) x)) (search_strings l x)
  unfolding search_strings
  search_strings-Splits = search-Splits (length l) _ (λ a b ab bn h. elim (Bool-cases (ltb a b)) [
    | inl less ↦ ground (
      arith,
      Ascending-get_or l a b asc (ltb→lt a b less) bn,
      str_lt_trans (get_or l a []) (get_or l b []) x,
    )
    | inr same ↦ let e : a ≡ b = ground arith in rw (← e) h
  ])

  -- The search returns the position of a string that is there.
  pub search_strings-eq : (k : ℕ) → k < length l → get_or l k [] ≡ x → search_strings l x ≡ k
  search_strings-eq k lt e =
      let r = search_strings l x in
      let s = search_strings-Splits in
      elim (Bool-cases (ltb r k)) [
        | inl early ↦ absurd (
            ground (
              arith,
              s.from r (omega arith) (omega (arith, ltb→lt r k early)),
              Ascending-get_or l r k asc (ltb→lt r k early) lt,
              ap (str_lt (get_or l r [])) e,
            ))
        | inr late ↦ elim (Bool-cases (ltb k r)) [
          | inl past ↦ absurd (
              ground (
                arith,
                s.below k (ltb→lt k r past),
                ap (λ (t : Str). str_lt t x) e,
                str_lt_irrefl x,
              ))
          | inr not_past ↦ ground arith
        ]
      ]

  -- The test of both searches on the position that they find.
  pub found-member :
      (ltb (search_strings l x) (length l) && str_eq (get_or l (search_strings l x) []) x)
      ≡ member x l
  found-member = elim (Bool-cases (member x l)) [
    | inl there ↦
        let (k, lt, e) = position x l there in
        rw (search_strings-eq k lt e, there) (ground (arith, str_eq_iff (get_or l k []) x))
    | inr absent ↦ rw absent (elim (Bool-cases (ltb (search_strings l x) (length l))) [
      | inr out ↦ rw out
      | inl within ↦ rw within (elim (Bool-cases (str_eq (get_or l (search_strings l x) []) x)) [
        | inr other ↦ other
        | inl same ↦ absurd (
            cc (
              member-get_or l (search_strings l x) (ltb→lt _ _ within),
              ap (λ (t : Str). member t l) ((str_eq_iff _ _).0 same),
              absent,
            ))
      ])
    ])
  ]

  -- On an ascending array `gravityContainsLocked` is membership.
  pub gravity_contains-member : gravity_contains l x ≡ member x l
  unfolding gravity_contains
  gravity_contains-member = found-member
