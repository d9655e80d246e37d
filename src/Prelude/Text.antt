-- ===== src/Prelude/Text.antt =====
-- Go's strings as lists of bytes, and the functions of package strings that the program calls.
-- `to_lower`, `equal_fold` and `is_space` are those of ASCII.
use Prim.Native.Nat.{ℕ, suc, ◌+◌, ◌-◌}
use Prim.Native.Char.{code}
use Prim.Native.String.{String}
use mathlib.Core.Path.{◌≡◌, refl}
use mathlib.Core.Bool.{Bool, true, false, ◌&&◌, ◌||◌}
use mathlib.Core.List.{List, [], ◌∷◌, ◌++◌}
use mathlib.Core.Logic.{◌↔◌}
use mathlib.Core.Option
use mathlib.Core.Option.{Option, none, some}
use native.Mathlib.Omega.{arith}
use moreno_dnsleaf.Prelude.Tests.{ltb, leb, ◌==◌, if◌then◌else◌, is_some}
use moreno_dnsleaf.Prelude.Lists.{length, drop, any}

abbrev pub Str : Type 0
Str = List ℕ

-- The bytes of an ASCII literal.
abbrev pub codes : String → Str
codes String.[] = []
codes (String.◌∷◌ c s) = code c ∷ codes s

unfoldable pub str_eq : Str → Str → Bool
str_eq [] [] = true
str_eq (x ∷ xs) (y ∷ ys) = x == y && str_eq xs ys
str_eq _ _ = false

pub str_eq_iff : (a b : Str) → (str_eq a b ≡ true) ↔ (a ≡ b)
unfolding str_eq
str_eq_iff (x ∷ a) (y ∷ b) = ground (arith, str_eq_iff a b)
str_eq_iff _ _ = ground arith

pub str_eq_refl : (a : Str) → str_eq a a ≡ true
str_eq_refl a = (str_eq_iff a a).1 refl

pub eq_of_str_eq : (a b : Str) → str_eq a b ≡ true → a ≡ b
eq_of_str_eq a b h = (str_eq_iff a b).0 h

unfoldable pub is_empty : Str → Bool
is_empty [] = true
is_empty (c ∷ cs) = false

unfoldable pub is_space : ℕ → Bool
is_space c = c == 32 || (leb 9 c && leb c 13)

unfoldable pub lower_byte : ℕ → ℕ
lower_byte c = if leb b'A' c && leb c b'Z' then c + 32 else c

unfoldable pub upper_byte : ℕ → ℕ
upper_byte c = if leb b'a' c && leb c b'z' then c - 32 else c

unfoldable pub to_lower : Str → Str
to_lower [] = []
to_lower (c ∷ cs) = lower_byte c ∷ to_lower cs

unfoldable pub to_upper : Str → Str
to_upper [] = []
to_upper (c ∷ cs) = upper_byte c ∷ to_upper cs

unfoldable pub equal_fold : Str → Str → Bool
equal_fold a b = str_eq (to_lower a) (to_lower b)

-- `strings.Trim` and its kin, by a test on the byte.
unfoldable pub trim_left_by : (ℕ → Bool) → Str → Str
trim_left_by p [] = []
trim_left_by p (c ∷ cs) = if p c then trim_left_by p cs else c ∷ cs

-- `c` in front of a text that is trimmed on the right.
unfoldable pub cons_trimmed : (ℕ → Bool) → ℕ → Str → Str
cons_trimmed p c [] = if p c then [] else c ∷ []
cons_trimmed p c (d ∷ ds) = c ∷ d ∷ ds

unfoldable pub trim_right_by : (ℕ → Bool) → Str → Str
trim_right_by p [] = []
trim_right_by p (c ∷ cs) = cons_trimmed p c (trim_right_by p cs)

unfoldable pub trim_by : (ℕ → Bool) → Str → Str
trim_by p s = trim_left_by p (trim_right_by p s)

unfoldable pub trim_space : Str → Str
trim_space = trim_by is_space

unfoldable pub has_prefix : Str → Str → Bool
has_prefix [] s = true
has_prefix (p ∷ ps) [] = false
has_prefix (p ∷ ps) (c ∷ cs) = p == c && has_prefix ps cs

unfoldable pub trim_prefix : Str → Str → Str
trim_prefix p s = if has_prefix p s then drop (length p) s else s

unfoldable pub has_suffix : Str → Str → Bool
has_suffix suf [] = str_eq [] suf
has_suffix suf (c ∷ cs) = str_eq (c ∷ cs) suf || has_suffix suf cs

unfoldable pub trim_suffix : Str → Str → Str
trim_suffix suf [] = []
trim_suffix suf (c ∷ cs) = if str_eq (c ∷ cs) suf then [] else c ∷ trim_suffix suf cs

-- `strings.Index`; `none` for -1.
unfoldable pub index : Str → Str → Option ℕ
index sub [] = if has_prefix sub [] then some 0 else none
index sub (c ∷ cs) = if has_prefix sub (c ∷ cs) then some 0 else Option.map suc (index sub cs)

unfoldable pub contains : Str → Str → Bool
contains sub s = is_some (index sub s)

unfoldable pub has_byte : Str → ℕ → Bool
has_byte chars c = any (λ x. x == c) chars

-- `strings.IndexAny`.
unfoldable pub index_any : Str → Str → Option ℕ
index_any chars [] = none
index_any chars (c ∷ cs) = if has_byte chars c then some 0 else Option.map suc (index_any chars cs)

unfoldable pub contains_any : Str → Str → Bool
contains_any chars s = any (has_byte chars) s

-- `strings.Split` at one byte: the first part, and the parts behind the first separator.
unfoldable pub split_cons : ℕ → List Str → List Str
split_cons c [] = (c ∷ []) ∷ []
split_cons c (p ∷ ps) = (c ∷ p) ∷ ps

unfoldable pub split : ℕ → Str → List Str
split sep [] = [] ∷ []
split sep (c ∷ cs) = if c == sep then [] ∷ split sep cs else split_cons c (split sep cs)

unfoldable pub join : Str → List Str → Str
join sep [] = []
join sep (p ∷ []) = p
join sep (p ∷ q ∷ ps) = p ++ (sep ++ join sep (q ∷ ps))

-- `strings.Fields`: the parts between the spaces that are not empty.
unfoldable pub drop_empty : List Str → List Str
drop_empty [] = []
drop_empty ([] ∷ ps) = drop_empty ps
drop_empty ((c ∷ p) ∷ ps) = (c ∷ p) ∷ drop_empty ps

unfoldable pub split_spaces : Str → List Str
split_spaces [] = [] ∷ []
split_spaces (c ∷ cs) = if is_space c then [] ∷ split_spaces cs else split_cons c (split_spaces cs)

unfoldable pub fields : Str → List Str
fields s = drop_empty (split_spaces s)

-- `sort.Strings` compares bytes.
unfoldable pub str_lt : Str → Str → Bool
str_lt s [] = false
str_lt [] (y ∷ ys) = true
str_lt (x ∷ xs) (y ∷ ys) = ltb x y || (x == y && str_lt xs ys)

-- For tests: all that a run of these functions computes with.
unfoldable pub text_program : Unit {0}
unfolding str_eq is_empty is_space lower_byte upper_byte to_lower to_upper equal_fold trim_left_by
    cons_trimmed trim_right_by trim_by trim_space has_prefix trim_prefix has_suffix trim_suffix
    index contains has_byte index_any contains_any split_cons split join drop_empty split_spaces
    fields str_lt
text_program = tt
