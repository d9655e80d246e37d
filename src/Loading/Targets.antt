-- ===== src/Loading/Targets.antt =====
-- Which list `blocklistIndex` (blocklists.go) finds for the target of an update.
use moreno_dnsleaf.Prelude.{
  ℕ, suc, ◌+◌, ◌≤◌, ◌<◌, List, [], ◌∷◌, Option, none, some, length, ◌≡◌, ap, ◌∙◌, arith,
}
use moreno_dnsleaf.Prelude.Int.{ℤ, pos, negsuc}
use moreno_dnsleaf.Prelude.Number.{atoi}
use moreno_dnsleaf.Prelude.Text.{Str, trim_space}
use moreno_dnsleaf.Config.{Config, BlocklistSource}
use moreno_dnsleaf.Loading.{index_of_name, index_of_number, index_or, blocklist_index}

index_of_number-lt : (o : Option ℤ) (count i : ℕ) → index_of_number o count ≡ some i → i < count
unfolding index_of_number
index_of_number-lt none count i h = ground arith
index_of_number-lt (some (negsuc n)) count i h = ground arith
index_of_number-lt (some (pos n)) count i h = ground arith

index_of_name-lt :
    (target : Str) (start : ℕ) (lists : List BlocklistSource) (i : ℕ)
    → index_of_name target start lists ≡ some i
    → i < start + length lists
unfolding index_of_name
index_of_name-lt target start [] i h = ground arith
index_of_name-lt target start (list ∷ lists) i h =
    ground (arith, index_of_name-lt target (suc start) lists i)

index_or-lt :
    (first other : Option ℕ) (count i : ℕ)
    → (first ≡ some i → i < count)
    → (other ≡ some i → i < count)
    → index_or first other ≡ some i
    → i < count
index_or-lt none other count i f g h = g h
index_or-lt (some j) other count i f g h = f h

numbered :
    (n count : ℕ) (other : Option ℕ)
    → suc n ≤ count
    → index_or (index_of_number (some (pos (suc n))) count) other ≡ some n
unfolding index_of_number
numbered n count other h = ground arith

-- A list that is found for a target is one of the configured lists; and a number from 1 to their count
-- stands for the list at that place, counted from 1.
pub blocklist_index_bounds :
    (cfg : Config) (target : Str)
    → ((i : ℕ) → blocklist_index cfg target ≡ some i → i < length cfg.blocklists)
      × ((n : ℕ)
          → atoi (trim_space target) ≡ some (pos (suc n))
          → suc n ≤ length cfg.blocklists
          → blocklist_index cfg target ≡ some n)
unfolding blocklist_index
blocklist_index_bounds cfg target =
    let text = trim_space target in
    let count = length cfg.blocklists in
    let by_name = index_of_name text 0 cfg.blocklists in
    (
      λ i.
          index_or-lt (index_of_number (atoi text) count) by_name count i
            (index_of_number-lt (atoi text) count i)
            (λ h. omega (arith, index_of_name-lt text 0 cfg.blocklists i h)),
      λ n e le.
          ap (λ o. index_or (index_of_number o count) by_name) e ∙ numbered n count by_name le,
    )
