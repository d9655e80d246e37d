-- ===== src/Policy/Lists/Clean.antt =====
-- `cleanNames` and `cleanRules` of policy_api.go.
use moreno_dnsleaf.Prelude.{
  Bool, true, false, not, ◌&&◌, ◌||◌, List, [], ◌∷◌, any, ◌≡◌, refl, ap, ◌∙◌, arith, inl, inr,
  Bool-cases,
}
use moreno_dnsleaf.Prelude.Map.{Map, get, put, get-put}
use moreno_dnsleaf.Prelude.Text.{
  Str, str_eq, str_eq_iff, str_eq_refl, is_empty, trim_space, to_lower,
}
use moreno_dnsleaf.Rules.{normalize_domain_rule}
use moreno_dnsleaf.Blocking.{flag}
use moreno_dnsleaf.Policy.Lists.{clean_from, clean_names, clean_rules}

flag-put : (k j : Str) (m : Map Bool) → flag j (put k true m) ≡ (str_eq k j || flag j m)
unfolding flag
flag-put k j m = ground (arith, get-put k j true m)

flag_nil : (k : Str) → flag k [] ≡ false
flag_nil k = unfold flag get in refl

module _ (normal key : Str → Str) where
  -- Whether an item has the key.
  abbrev pub has_key : Str → List Str → Bool
  has_key k items = any (λ item. str_eq (key item) k) items

  -- No two items have the same key.
  abbrev pub HasDistinctKeys : List Str → Type 0
  HasDistinctKeys [] = Unit
  HasDistinctKeys (item ∷ items) = (has_key (key item) items ≡ false) × HasDistinctKeys items

  -- Whether an item of the input has a normal form with that key.
  abbrev pub is_wanted : Str → List Str → Bool
  is_wanted k items = any (λ raw. not (is_empty (normal raw)) && str_eq (key (normal raw)) k) items

  has_key-clean_from :
      (seen : Map Bool) (items : List Str) (k : Str)
      → has_key k (clean_from normal key seen items) ≡ (not (flag k seen) && is_wanted k items)
  unfolding clean_from
  has_key-clean_from seen [] k = ground arith
  has_key-clean_from seen (raw ∷ items) k = ground (
    arith,
    has_key-clean_from seen items k,
    has_key-clean_from (put (key (normal raw)) true seen) items k,
    flag-put (key (normal raw)) k seen,
    str_eq_iff (key (normal raw)) k,
  )

  clean_from-HasDistinctKeys :
      (seen : Map Bool) (items : List Str) → HasDistinctKeys (clean_from normal key seen items)
  unfolding clean_from
  clean_from-HasDistinctKeys seen [] = tt
  clean_from-HasDistinctKeys seen (raw ∷ items) =
      let k = key (normal raw) in
      elim (Bool-cases (is_empty (normal raw) || flag k seen)) [
        | inl skipped ↦ rw skipped (clean_from-HasDistinctKeys seen items)
        | inr new ↦ rw new (
          ground (
            arith,
            has_key-clean_from (put k true seen) items k,
            flag-put k k seen,
            str_eq_refl k,
          ),
          clean_from-HasDistinctKeys (put k true seen) items,
        )
      ]

-- `cleanNames` leaves the trimmed names that are not empty, no two of which are equal when case is
-- ignored; `cleanRules` leaves the normal forms that are not empty, no two of which are equal.
pub clean_names-lem :
    (items : List Str) (k : Str)
    → HasDistinctKeys trim_space to_lower (clean_names items)
      × (has_key trim_space to_lower k (clean_names items) ≡ is_wanted trim_space to_lower k items)
      × HasDistinctKeys normalize_domain_rule (λ item. item) (clean_rules items)
      × (has_key normalize_domain_rule (λ item. item) k (clean_rules items)
          ≡ is_wanted normalize_domain_rule (λ item. item) k items)
unfolding clean_names clean_rules
clean_names-lem items k = (
  clean_from-HasDistinctKeys trim_space to_lower [] items,
  has_key-clean_from trim_space to_lower [] items k
      ∙ ap (λ f. not f && is_wanted trim_space to_lower k items) (flag_nil k),
  clean_from-HasDistinctKeys normalize_domain_rule (λ item. item) [] items,
  has_key-clean_from normalize_domain_rule (λ item. item) [] items k
      ∙ ap (λ f. not f && is_wanted normalize_domain_rule (λ item. item) k items) (flag_nil k),
)
