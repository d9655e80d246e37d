-- ===== src/Logs/Retention.antt =====
-- The retention of the query log: `trimQueryLogLocked` of config.go.
use moreno_dnsleaf.Prelude.{true, false, List, [], ◌∷◌, All, ◌≡◌}
use moreno_dnsleaf.Prelude.Int.{ℤ, pos, ltb_ℤ, leb_ℤ}
use moreno_dnsleaf.Config.{Config}
use moreno_dnsleaf.Logs.{QueryEntry}

-- The entries in the order of their times, all after 1970.
abbrev pub IsInOrder : List QueryEntry → Type 0
IsInOrder [] = Unit
IsInOrder (e ∷ es) =
    (ltb_ℤ (pos 0) e.timestamp ≡ true)
    × All (λ later. leb_ℤ e.timestamp later.timestamp ≡ true) es
    × IsInOrder es

abbrev pub IsFresh : ℤ → QueryEntry → Type 0
IsFresh cutoff e = ltb_ℤ e.timestamp cutoff ≡ false
