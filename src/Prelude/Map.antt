-- ===== src/Prelude/Map.antt =====
-- A Go map with string keys, as an association list, and its laws in `if` form.
use Prim.Native.Nat.{◌+◌, ◌-◌, ◌≤◌}
use mathlib.Core.Path.{◌≡◌, refl, ap}
use mathlib.Core.Bool.{true}
use mathlib.Core.List.{List, [], ◌∷◌}
use mathlib.Core.Option.{Option, none, some}
use native.Mathlib.Omega.{arith}
use moreno_dnsleaf.Prelude.Tests.{if◌then◌else◌, is_some}
use moreno_dnsleaf.Prelude.Lists.{length, All}
use moreno_dnsleaf.Prelude.Text.{Str, str_eq, str_eq_iff, str_eq_refl}

abbrev pub Map {ℓ} : Type ℓ → Type ℓ
Map V = List (Str × V)

module _ {ℓ} {V : Type ℓ} where
  unfoldable pub get : Str → Map V → Option V
  get k [] = none
  get k ((j, v) ∷ m) = if str_eq j k then some v else get k m

  unfoldable pub put : Str → V → Map V → Map V
  put k v [] = (k, v) ∷ []
  put k v ((j, w) ∷ m) = if str_eq j k then (k, v) ∷ m else (j, w) ∷ put k v m

  unfoldable pub delete : Str → Map V → Map V
  delete k [] = []
  delete k ((j, w) ∷ m) = if str_eq j k then delete k m else (j, w) ∷ delete k m

  pub get-put :
      (k j : Str) (v : V) (m : Map V) → get j (put k v m) ≡ (if str_eq k j then some v else get j m)
  unfolding get put
  get-put k j v [] = refl
  get-put k j v ((i, w) ∷ m) =
      ground (arith, str_eq_iff k j, str_eq_iff i k, str_eq_iff i j, get-put k j v m)

  pub get-put_self : (k : Str) (v : V) (m : Map V) → get k (put k v m) ≡ some v
  get-put_self k v m = simp (get-put, str_eq_refl)

  pub get-delete :
      (k j : Str) (m : Map V) → get j (delete k m) ≡ (if str_eq k j then none else get j m)
  unfolding get delete
  get-delete k j [] = ground arith
  get-delete k j ((i, w) ∷ m) =
      ground (arith, str_eq_iff k j, str_eq_iff i k, str_eq_iff i j, get-delete k j m)

  pub get-delete_self : (k : Str) (m : Map V) → get k (delete k m) ≡ none
  get-delete_self k m = simp (get-delete, str_eq_refl)

  pub length-delete-le : (k : Str) (m : Map V) → length (delete k m) ≤ length m
  unfolding delete
  length-delete-le k [] = omega arith
  length-delete-le k ((j, w) ∷ m) = ground (arith, length-delete-le k m)

  -- Deleting a key that is there makes the map smaller.
  pub length-delete-lt :
      (k : Str) (m : Map V) → is_some (get k m) ≡ true → length (delete k m) + 1 ≤ length m
  unfolding delete get
  length-delete-lt k [] h = ground arith
  length-delete-lt k ((j, w) ∷ m) h = ground (arith, length-delete-le k m, length-delete-lt k m)

  pub length-put-le : (k : Str) (v : V) (m : Map V) → length (put k v m) ≤ length m + 1
  unfolding put
  length-put-le k v [] = omega arith
  length-put-le k v ((j, w) ∷ m) = ground (arith, length-put-le k v m)

  -- Storing under a key that is there keeps the size.
  pub length-put_of_get :
      (k : Str) (v : V) (m : Map V) → is_some (get k m) ≡ true → length (put k v m) ≡ length m
  unfolding put get
  length-put_of_get k v [] h = ground arith
  length-put_of_get k v ((j, w) ∷ m) h = ground (arith, length-put_of_get k v m)

  -- The first key of an iteration goes.
  unfoldable pub delete_first : Map V → Map V → Map V
  delete_first [] m = m
  delete_first ((k, v) ∷ rest) m = delete k m

  -- What Go promises of `range`: it visits the entries of the map, each once, in any order.
  pub record IsRange (range : Map V → Map V) : Type ℓ where
    pub visits : (m : Map V) → All (λ e. get e.0 m ≡ some e.1) (range m)
    pub covers : (m : Map V) (k : Str) (v : V) → get k m ≡ some v → get k (range m) ≡ some v
    pub counts : (m : Map V) → length (range m) ≡ length m

  length-delete_first_of :
      (order m : Map V)
      → All (λ e. get e.0 m ≡ some e.1) order
      → length order ≡ length m
      → length (delete_first order m) ≤ length m - 1
  unfolding delete_first
  length-delete_first_of [] m h e = omega arith
  length-delete_first_of ((k, v) ∷ rest) m h e =
      omega (arith, length-delete-lt k m (ap is_some h.0))

  -- Deleting the first key makes a map smaller, if it has a key.
  pub length-delete_first :
      (range : Map V → Map V) (m : Map V)
      → IsRange range
      → length (delete_first (range m) m) ≤ length m - 1
  length-delete_first range m r = length-delete_first_of (range m) m (r.visits m) (r.counts m)

-- For tests: all that a run of these functions computes with.
unfoldable pub map_program : Unit {0}
unfolding get put delete delete_first
map_program = tt
