-- ===== src/Gravity.antt =====
-- The sorted arrays of remote domains of blocklists.go: `gravity`, and for each list the indexes
-- of its domains in `gravity`.
pub mod Search
pub mod Sorted
pub mod Members
pub mod Indexes
use moreno_dnsleaf.Prelude.{
  ℕ, zero, suc, ◌+◌, ◌-◌, ◌/◌, ◌^◌, Bool, true, false, not, ◌&&◌, ◌||◌, List, [], ◌∷◌, ◌++◌, ltb,
  leb, ◌==◌, if◌then◌else◌, length, get_or,
}
use moreno_dnsleaf.Prelude.Text.{Str, str_eq, str_lt, is_empty, text_program}
use moreno_dnsleaf.Prelude.Map.{Map, put}
use moreno_dnsleaf.Rules.{normalize_domain_rule, rules_program}

-- `sort.Search`: the loop on `i` and `j`, with fuel for the distance between them.
unfoldable pub search_loop : ℕ → (ℕ → Bool) → ℕ → ℕ → ℕ
search_loop zero f i j = i
search_loop (suc fuel) f i j =
    let h = (i + j) / 2 in
    let lower = search_loop fuel f i h in
    let upper = search_loop fuel f (h + 1) j in
    if ltb i j then (if f h then lower else upper) else i

unfoldable pub search : ℕ → (ℕ → Bool) → ℕ
search n f = search_loop n f 0 n

-- `sort.SearchStrings`
unfoldable pub search_strings : List Str → Str → ℕ
search_strings a x = search (length a) (λ i. not (str_lt (get_or a i []) x))

-- `sort.Strings`
unfoldable pub insert_sorted : Str → List Str → List Str
insert_sorted x [] = x ∷ []
insert_sorted x (y ∷ ys) = if str_lt y x then y ∷ insert_sorted x ys else x ∷ y ∷ ys

unfoldable pub sort_strings : List Str → List Str
sort_strings [] = []
sort_strings (x ∷ xs) = insert_sorted x (sort_strings xs)

-- The compaction behind a sort: a string goes if it equals the last one that was kept.
unfoldable pub dedup_after : Str → List Str → List Str
dedup_after last [] = []
dedup_after last (x ∷ xs) = if str_eq last x then dedup_after last xs else x ∷ dedup_after x xs

unfoldable pub dedup : List Str → List Str
dedup [] = []
dedup (x ∷ xs) = x ∷ dedup_after x xs

-- The loop of `mergeGravityLocked` that appends the normal forms.
unfoldable pub normalized_domains : List Str → List Str
normalized_domains [] = []
normalized_domains (d ∷ ds) =
    let domain = normalize_domain_rule d in
    if is_empty domain then normalized_domains ds else domain ∷ normalized_domains ds

unfoldable pub merge_gravity : List Str → List Str → List Str
merge_gravity gravity [] = gravity
merge_gravity gravity (d ∷ ds) = dedup (sort_strings (gravity ++ normalized_domains (d ∷ ds)))

unfoldable pub gravity_contains : List Str → Str → Bool
gravity_contains gravity domain =
    let i = search_strings gravity domain in
    ltb i (length gravity) && str_eq (get_or gravity i []) domain

abbrev pub max_uint32 : ℕ
max_uint32 = 4294967295

-- The inner loop of `rebuildGravityListIndexesLocked`.
unfoldable pub list_indexes : List Str → List Str → List ℕ
list_indexes gravity [] = []
list_indexes gravity (domain ∷ ds) =
    let i = search_strings gravity domain in
    if ltb i (length gravity) && str_eq (get_or gravity i []) domain && leb i max_uint32
    then i ∷ list_indexes gravity ds
    else list_indexes gravity ds

unfoldable pub put_indexes : Str → List ℕ → Map (List ℕ) → Map (List ℕ)
put_indexes key [] m = m
put_indexes key (i ∷ is) m = put key (i ∷ is) m

unfoldable pub rebuild_gravity_list_indexes : List Str → Map (List Str) → Map (List ℕ)
rebuild_gravity_list_indexes gravity [] = []
rebuild_gravity_list_indexes gravity ((key, domains) ∷ lists) =
    put_indexes key (list_indexes gravity domains) (rebuild_gravity_list_indexes gravity lists)

unfoldable pub gravity_index_set_contains : List Str → List ℕ → Str → Bool
gravity_index_set_contains gravity indexes name =
    let i = search_strings gravity name in
    if leb (length gravity) i || not (str_eq (get_or gravity i []) name) || ltb max_uint32 i
    then false
    else let j = search (length indexes) (λ n. leb i (get_or indexes n 0)) in
      ltb j (length indexes) && get_or indexes j 0 == i

unfoldable pub gravity_program : Unit {0}
unfolding rules_program search_loop search search_strings insert_sorted sort_strings dedup_after
    dedup normalized_domains merge_gravity gravity_contains list_indexes put_indexes
    rebuild_gravity_list_indexes gravity_index_set_contains
gravity_program = tt
