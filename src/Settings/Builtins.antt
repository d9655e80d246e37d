-- ===== src/Settings/Builtins.antt =====
-- The built-in profiles that `ensureBuiltinProfiles` of config.go adds.
use moreno_dnsleaf.Prelude.{true, false, is_some, ◌≡◌, refl}
use moreno_dnsleaf.Prelude.Map.{Map, get}
use moreno_dnsleaf.Prelude.Text.{Str, codes}
use moreno_dnsleaf.Config.{ClientProfile}
use moreno_dnsleaf.Profiles.{empty_profile, put_missing}

pub put_missing_present :
    (name : Str) (profile : ClientProfile) (m : Map ClientProfile)
    → is_some (get name m) ≡ true
    → put_missing name profile m ≡ m
unfolding put_missing
put_missing_present name profile m h = rw h refl

-- The built-in profiles of a map.
abbrev pub with_builtins : Map ClientProfile → Map ClientProfile
with_builtins m =
    put_missing (codes "off") (empty_profile true)
      (put_missing (codes "default") (empty_profile false) m)
