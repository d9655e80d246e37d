-- ===== src/Logs/Lines.antt =====
-- The server log: `serverLogWriter.Write` and `addServerLog` (main.go).
use moreno_dnsleaf.Prelude.{
  Bool, true, not, ◌&&◌, List, [], ◌∷◌, ◌++◌, keep, map, ◌≡◌, refl, ◌∙◌, arith, Bool-cases, inl,
  inr,
}
use moreno_dnsleaf.Prelude.Text.{Str, codes, is_empty, trim_space, split}
use moreno_dnsleaf.Prelude.Trim.{trim_space_idem}
use moreno_dnsleaf.Logs.{
  push, last_of, max_server_lines, add_server_log, is_noisy_tls_eof, write_lines, write_server_log,
}
use moreno_dnsleaf.Logs.Ring.{push_all, push_all-lem}

abbrev pub is_logged : Str → Bool
is_logged line = not (is_empty (trim_space line)) && not (is_noisy_tls_eof (trim_space line))

-- A line as it is kept: the time of day, two spaces and the trimmed text.
abbrev pub stamped : Str → Str → Str
stamped clock line = clock ++ codes "  " ++ trim_space line

add_server_log-push :
    (clock : Str) (log : List Str) (line : Str)
    → is_logged line ≡ true
    → add_server_log clock log (trim_space line) ≡ push max_server_lines log (stamped clock line)
unfolding add_server_log
add_server_log-push clock log line h = rw (trim_space_idem line) (ground arith)

write_lines-push_all :
    (clock : Str) (log lines : List Str)
    → write_lines clock log lines
      ≡ push_all max_server_lines log (map (stamped clock) (keep is_logged lines))
unfolding write_lines
write_lines-push_all clock log [] = refl
write_lines-push_all clock log (line ∷ lines) = elim (Bool-cases (is_logged line)) [
  | inl e ↦
      rw (e, add_server_log-push clock log line e)
        (write_lines-push_all clock (push max_server_lines log (stamped clock line)) lines)
  | inr e ↦ rw e (write_lines-push_all clock log lines)
]

-- What `Write` leaves in an empty server log: the last 300 lines of the text that are not blank and no
-- noise of TLS, trimmed and stamped, in their order.
pub write_server_log-lines :
    (clock text : Str)
    → write_server_log clock [] text
      ≡ last_of max_server_lines (map (stamped clock) (keep is_logged (split 10 text)))
write_server_log-lines clock text =
    unfold write_server_log in
    write_lines-push_all clock [] (split 10 text)
    ∙ (push_all-lem max_server_lines (map (stamped clock) (keep is_logged (split 10 text)))).0
