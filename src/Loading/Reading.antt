-- ===== src/Loading/Reading.antt =====
-- `readBlocklistSource` of blocklists.go: the local files, the cache files and requests, which are the
-- argument `Sources`.
use moreno_dnsleaf.Prelude.{
  ℕ, Bool, true, false, not, ◌&&◌, ◌||◌, ◌++◌, Option, none, some, if◌then◌else◌, ltb, leb, length,
}
use moreno_dnsleaf.Prelude.Int.{ℤ}
use moreno_dnsleaf.Prelude.Text.{Str, codes, trim_space, has_prefix}

unfoldable pub is_remote_blocklist_source : Str → Bool
is_remote_blocklist_source source =
    has_prefix (codes "http://") (trim_space source)
    || has_prefix (codes "https://") (trim_space source)

-- An error, and whether it says that a file does not exist.
pub record Failure : Type 0 where
  pub is_not_exist : Bool
  pub message : Str

-- What `readBlocklistSource` returns.
pub record ReadResult : Type 0 where
  pub content : Option Str
  pub from_cache : Bool
  pub failure : Option Failure

-- A request: no answer, with the error; an answer with its status and body; or an answer whose body
-- cannot be read.
pub data Fetch : Type 0 where
  no_answer : Str → Fetch
  answered : ℕ → Str → Fetch
  broken : ℕ → Str → Fetch

-- The local files, the cache files, whether a cache file is younger than 24 hours, the seconds since
-- it was written, requests, a status as the text of an error, and the time as text.
pub record Sources : Type 0 where
  pub local_file : Str → ReadResult
  pub cache_file : Str → Option Str
  pub is_recent : Str → Bool
  pub age : Str → Option ℤ
  pub fetch : Str → Fetch
  pub status_text : ℕ → Str
  pub now_text : Str

abbrev pub max_blocklist_bytes : ℕ
max_blocklist_bytes = 52428800

unfoldable pub cached_copy : Option Str → Str → ReadResult
cached_copy (some copy) message = record {
  content = some copy;
  from_cache = true;
  failure =
      some (record { is_not_exist = false; message = message ++ codes "; using cached copy" });
}
cached_copy none message = record {
  content = none;
  from_cache = false;
  failure = some (record { is_not_exist = false; message = message });
}

abbrev pub is_ok : ℕ → Bool
is_ok status = leb 200 status && ltb status 300

unfoldable pub fetched : (ℕ → Str) → Option Str → Fetch → ReadResult
fetched status_text copy (no_answer message) = cached_copy copy message
fetched status_text copy (broken status message) =
    cached_copy copy (if is_ok status then message else status_text status)
fetched status_text copy (answered status body) =
    if not (is_ok status)
    then cached_copy copy (status_text status)
    else if ltb max_blocklist_bytes (length body)
    then cached_copy copy (codes "blocklist exceeds 50 MiB")
    else record { content = some body; from_cache = false; failure = none }

unfoldable pub recent_or : Option Str → Bool → ReadResult → ReadResult
recent_or (some copy) true other = record { content = some copy; from_cache = true; failure = none }
recent_or copy recent other = other

unfoldable pub read_blocklist_source : Sources → Str → Bool → ReadResult
read_blocklist_source files source force_remote =
    let s = trim_space source in
    if not (is_remote_blocklist_source s)
    then files.local_file s
    else recent_or (files.cache_file s) (not force_remote && files.is_recent s)
        (fetched files.status_text (files.cache_file s) (files.fetch s))
