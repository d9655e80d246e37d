-- ===== src/Upstream/Monitor.antt =====
-- When an upstream counts as unhealthy: `monitorUpstreams`.
use moreno_dnsleaf.Prelude.{ℕ, ◌+◌, ◌≤◌, Bool, true, false, not, List, [], ◌∷◌, ◌≡◌, arith}
use moreno_dnsleaf.Prelude.Int.{pos, ltb_ℤ}
use moreno_dnsleaf.Prelude.Map.{get, get-put, get-delete}
use moreno_dnsleaf.Prelude.Text.{Str, str_eq_iff}
use moreno_dnsleaf.Upstream.{Health, is_bad, note_probe, count_of, probe_round}

-- An upstream is unhealthy just if it failed as often as needed since it last answered.
abbrev pub IsConsistent : ℕ → Health → Type 0
IsConsistent needed h =
    (k : Str)
    → is_bad (get k h.unhealthy) ≡ not (ltb_ℤ (pos (count_of (get k h.failures))) (pos needed))

note_probe-IsConsistent :
    (needed : ℕ) (h : Health) (upstream : Str) (ok : Bool)
    → 1 ≤ needed
    → IsConsistent needed h
    → IsConsistent needed (note_probe (pos needed) h upstream ok)
unfolding note_probe
note_probe-IsConsistent needed h upstream true n c k =
    ground (arith, c k, get-put upstream k 0 h.failures, get-delete upstream k h.unhealthy)
note_probe-IsConsistent needed h upstream false n c k =
    let same = str_eq_iff upstream k in
    let count = count_of (get upstream h.failures) + 1 in
    ground (arith, c k, get-put upstream k count h.failures, get-put upstream k true h.unhealthy)

-- If an upstream is counted unhealthy just if its probes failed as often in a row as needed, at
-- least once, then so it is after a round of probes, whatever they find.
pub probe_round-IsConsistent :
    (needed : ℕ) (probe : Str → Bool) (upstreams : List Str) (h : Health)
    → 1 ≤ needed
    → IsConsistent needed h
    → IsConsistent needed (probe_round (pos needed) probe upstreams h)
unfolding probe_round
probe_round-IsConsistent needed probe [] h n c = c
probe_round-IsConsistent needed probe (upstream ∷ upstreams) h n c =
    probe_round-IsConsistent needed probe upstreams _ n
      (note_probe-IsConsistent needed h upstream (probe upstream) n c)
