-- ===== src/Blocklist.antt =====
-- The parser of blocklists: `parseBlocklist` and `parseBlocklistLine` of blocklists.go. The host name
-- that package net/url finds in an address is an argument, `none` for an error.
pub mod Lines
pub mod Addresses
use moreno_dnsleaf.Prelude.{
  ℕ, zero, suc, Bool, true, false, not, ◌&&◌, ◌||◌, List, [], ◌∷◌, Option, none, some,
  if◌then◌else◌, ltb, ◌==◌, take, any,
}
use moreno_dnsleaf.Prelude.Text.{
  Str, codes, str_eq, is_empty, trim_space, trim_by, trim_prefix, has_prefix, has_byte, index,
  index_any, contains, contains_any, split, fields,
}
use moreno_dnsleaf.Rules.{normalize_domain_rule}

-- The text before a comment that starts with `#`.
unfoldable pub before_hash : Str → Option ℕ → Str
before_hash line none = line
before_hash line (some at) = trim_space (take at line)

-- The text before a comment that starts with `//`, which is not that of an address.
unfoldable pub before_slashes : Str → Option ℕ → Str
before_slashes line none = line
before_slashes line (some at) =
    if ltb 0 at && not (contains (codes "://") (take at line))
    then trim_space (take at line)
    else line

unfoldable pub without_comments : Str → Str
without_comments line =
    let text = before_hash line (index (codes "#") line) in
    before_slashes text (index (codes "//") text)

unfoldable pub is_comment : Str → Bool
is_comment line =
    is_empty line
    || has_prefix (codes "#") line
    || has_prefix (codes "!") line
    || has_prefix (codes "[") line

-- The domain of a filter `||domain^`.
unfoldable pub cut_at : Str → Option ℕ → Str
cut_at line none = line
cut_at line (some at) = take at line

unfoldable pub filter_domain : Str → Str
filter_domain line =
    let domain = trim_prefix (codes "||") line in
    normalize_domain_rule (cut_at domain (index_any (codes "^/$*") domain))

-- The second of at least three parts between slashes.
unfoldable pub second_part : List Str → Option Str
second_part (first ∷ second ∷ third ∷ parts) = some second
second_part _ = none

unfoldable pub slash_domain : Str → Option Str
slash_domain line =
    if has_prefix (codes "address=/") line || has_prefix (codes "server=/") line
    then second_part (split b'/' line)
    else none

unfoldable pub is_null_address : Str → Bool
is_null_address part =
    str_eq part (codes "0.0.0.0")
    || str_eq part (codes "127.0.0.1")
    || str_eq part (codes "::")
    || str_eq part (codes "::1")

-- The name of a line of a hosts file, the line itself if it is one word, `none` for other lines.
unfoldable pub host_name : Str → List Str → Option Str
host_name line (first ∷ second ∷ parts) = if is_null_address first then some second else none
host_name line _ = some line

unfoldable pub plain_domain : Option Str → Str
plain_domain none = []
plain_domain (some line) =
    let word =
      trim_by (has_byte (codes "|^")) (trim_prefix (codes ".") (trim_prefix (codes "||") line)) in
    let domain = normalize_domain_rule word in
    if is_empty domain || contains_any (codes "/?=&") domain then [] else domain

unfoldable pub normalized_or_empty : Option Str → Str
normalized_or_empty none = []
normalized_or_empty (some host) = normalize_domain_rule host

unfoldable pub slash_or_plain : Str → Option Str → Str
slash_or_plain line (some domain) = normalize_domain_rule domain
slash_or_plain line none = plain_domain (host_name line (fields line))

module _ (hostname : Str → Option Str) where
  unfoldable pub parse_text : Str → Str
  parse_text line =
      if has_prefix (codes "@@") line
      then []
      else if has_prefix (codes "||") line
      then filter_domain line
      else if has_prefix (codes "|http://") line || has_prefix (codes "|https://") line
      then normalized_or_empty (hostname (trim_prefix (codes "|") line))
      else slash_or_plain line (slash_domain line)

  unfoldable pub parse_blocklist_line : Str → Str
  parse_blocklist_line raw =
      let line = trim_space raw in
      if is_comment line then [] else parse_text (without_comments line)

  -- The loop over the lines.
  unfoldable pub parse_lines : List Str → List Str
  parse_lines [] = []
  parse_lines (raw ∷ lines) =
      let domains = parse_lines lines in
      let domain = parse_blocklist_line raw in if is_empty domain then domains else domain ∷ domains

  unfoldable pub parse_blocklist : Str → List Str
  parse_blocklist content = parse_lines (split b'\n' content)

-- For tests: all that a run of these functions computes with.
unfoldable pub blocklist_program : Unit {0}
unfolding before_hash before_slashes without_comments is_comment cut_at filter_domain second_part
    slash_domain is_null_address host_name plain_domain normalized_or_empty slash_or_plain
    parse_text parse_blocklist_line parse_lines parse_blocklist
blocklist_program = tt
