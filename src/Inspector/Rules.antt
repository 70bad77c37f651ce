-- ===== src/Inspector/Rules.antt =====
-- internal/inspector/inspector.go: evaluateRule, and its rules on what runs on the host.
use pantau.Common.{
  ℕ, Bool, not, ◌&&◌, ◌||◌, Option, none, some, List, [], ◌∷◌, leb, ◌==◌, if◌then◌else◌, length,
}
use pantau.Common.Text.{Text, codes, teq, contains, equal_fold, trim_space, split}
use pantau.Common.Int.{pos, negsuc}
use pantau.Common.Numerals.{itoa, atoi}
use pantau.Store.{DesiredRule}
use pantau.Shell.{shell_quote}
use pantau.Inspector.Verdicts.{Runner, Verdict, concat, ok, passes, fails, part}
use pantau.Inspector.Files.{evaluate_disk, evaluate_backup}

container_cause : Runner → DesiredRule → List Text → Text
container_cause r rule parts = concat (
    (if leb 4 (length parts)
      then concat (
          codes "ExitCode: "
          ∷ part parts 1
          ∷ codes ", OOMKilled: "
          ∷ part parts 2
          ∷ codes ", Error: "
          ∷ part parts 3
          ∷ codes "\n"
          ∷ [])
      else [])
    ∷ codes "--- Last 50 lines of container logs ---\n"
    ∷ trim_space
        (r.exec (
          concat (codes "docker logs --tail 50 " ∷ shell_quote rule.target ∷ codes " 2>&1" ∷ []))).0
    ∷ [])

unfoldable pub evaluate_container : Runner → DesiredRule → Verdict
unfolding passes fails container_cause
evaluate_container r rule =
    let answer = r.exec (
      concat (
        codes
          "docker inspect -f '{{.State.Status}}|{{.State.ExitCode}}|{{.State.OOMKilled}}|{{.State.Error}}' "
        ∷ shell_quote rule.target
        ∷ codes " 2>/dev/null"
        ∷ [])) in
    let out = trim_space answer.0 in
    let parts = split b'|' out in
    if not (answer.1 == 0) || teq out []
    then fails (codes "not_found")
        (concat (codes "Container " ∷ rule.target ∷ codes " does not exist on host" ∷ []))
    else if equal_fold (part parts 0) rule.expected
    then passes (part parts 0)
    else fails (part parts 0) (container_cause r rule parts)

unfoldable pub evaluate_cron : Runner → DesiredRule → Verdict
unfolding passes fails
evaluate_cron r rule =
    if contains (r.exec (codes "crontab -l 2>/dev/null")).0 rule.target
    then passes (codes "configured")
    else fails (codes "missing") (
        concat (
          codes "Expected crontab entry containing '"
          ∷ rule.target
          ∷ codes "' was not found in user crontab"
          ∷ []))

service_cmd : Text
service_cmd =
    codes
      "sh -c 'if command -v systemctl >/dev/null 2>&1; then systemctl is-active \"$1\" 2>/dev/null; elif service \"$1\" status 2>&1 | grep -iq \"running\"; then echo \"active\"; else echo \"inactive\"; fi' -- "

diag_cmd : Text
diag_cmd =
    codes
      "sh -c 'if command -v journalctl >/dev/null 2>&1; then journalctl -u \"$1\" -n 50 --no-pager 2>&1; elif [ -f \"/var/log/$1.log\" ]; then tail -n 50 \"/var/log/$1.log\" 2>&1; elif [ -f \"/var/log/$1/error.log\" ]; then tail -n 50 \"/var/log/$1/error.log\" 2>&1; else tail -n 50 /var/log/messages 2>&1 || tail -n 50 /var/log/syslog 2>&1; fi' -- "

unfoldable pub evaluate_service : Runner → DesiredRule → Verdict
unfolding passes fails service_cmd diag_cmd
evaluate_service r rule =
    let state = trim_space (r.exec (concat (service_cmd ∷ shell_quote rule.target ∷ []))).0 in
    if teq state (codes "active")
    then passes state
    else fails state (
        concat (
          codes "Service "
          ∷ rule.target
          ∷ codes " is "
          ∷ state
          ∷ codes " (expected active)\n--- Service diagnostics ---\n"
          ∷ trim_space (r.exec (concat (diag_cmd ∷ shell_quote rule.target ∷ []))).0
          ∷ []))

-- what follows the last colon, or the whole text
after_last : ℕ → Text → Text → Text
after_last sep whole [] = whole
after_last sep whole (c ∷ s) = if c == sep then after_last sep s s else after_last sep whole s

port_number : Text → Option ℕ
port_number s = elim (atoi s) [
  | none ↦ none
  | some (negsuc n) ↦ none
  | some (pos n) ↦ if leb 1 n && leb n 65535 then some n else none
]

-- A rule that expects its subject up or down: "port" and "process" end alike.
unfoldable pub expectation : Bool → Bool → Text → Text → Text → Text → Text → Verdict
unfolding passes fails
expectation is_up expected_up up down what cause expected =
    let now = if is_up then up else down in
    if is_up && expected_up || not is_up && not expected_up
    then passes now
    else fails now (concat (what ∷ cause ∷ codes " (expected " ∷ expected ∷ codes ")" ∷ []))

unfoldable pub evaluate_port : Runner → DesiredRule → Verdict
unfolding fails after_last port_number expectation
evaluate_port r rule =
    let target = trim_space rule.target in
    elim (port_number (after_last b':' target target)) [
      | none ↦ fails (codes "invalid_port") (concat (codes "Invalid port target: " ∷ target ∷ []))
      | some p ↦
          let answer = r.exec (
            concat (
              codes
                "sh -c 'if command -v ss >/dev/null 2>&1; then ss -tlpn 2>/dev/null; elif command -v netstat >/dev/null 2>&1; then netstat -tlpn 2>/dev/null; else lsof -iTCP -sTCP:LISTEN -P -n 2>/dev/null; fi' | grep -E \":"
              ∷ itoa p
              ∷ codes "\\b\""
              ∷ [])) in
          let is_listening = answer.1 == 0 && not (teq (trim_space answer.0) []) in
          expectation is_listening
            (not (equal_fold rule.expected (codes "closed"))
              && not (equal_fold rule.expected (codes "stopped")))
            (codes "listening") (codes "closed") (concat (codes "Port " ∷ target ∷ []))
            (if is_listening then codes " is listening" else codes " is not listening")
            rule.expected
    ]

unfoldable pub evaluate_process : Runner → DesiredRule → Verdict
unfolding expectation
evaluate_process r rule =
    let answer = r.exec (
      concat (
        codes
          "sh -c 'if command -v pgrep >/dev/null 2>&1; then pgrep -fl \"$1\" 2>/dev/null; else ps -ef 2>/dev/null | grep -v grep | grep \"$1\"; fi' -- "
        ∷ shell_quote rule.target
        ∷ [])) in
    let is_running = answer.1 == 0 && not (teq (trim_space answer.0) []) in
    expectation is_running
      (not (equal_fold rule.expected (codes "stopped"))
        && not (equal_fold rule.expected (codes "inactive")))
      (codes "running") (codes "stopped")
      (concat (codes "Process matching '" ∷ rule.target ∷ codes "'" ∷ []))
      (if is_running then codes " is running" else codes " is not running") rule.expected

unfoldable pub unknown_kind : Verdict
unknown_kind = record { current = codes "unknown"; status = ok; details = []; root_cause = [] }

unfoldable pub evaluate_rule : Runner → DesiredRule → Verdict
unfolding unknown_kind
evaluate_rule r rule =
    if teq rule.kind (codes "container")
    then evaluate_container r rule
    else if teq rule.kind (codes "disk")
    then evaluate_disk r rule
    else if teq rule.kind (codes "backup")
    then evaluate_backup r rule
    else if teq rule.kind (codes "cron")
    then evaluate_cron r rule
    else if teq rule.kind (codes "service")
    then evaluate_service r rule
    else if teq rule.kind (codes "port")
    then evaluate_port r rule
    else if teq rule.kind (codes "process")
    then evaluate_process r rule
    else unknown_kind
