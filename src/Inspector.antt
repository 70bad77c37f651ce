-- ===== src/Inspector.antt =====
-- internal/inspector/inspector.go: desired rules, drift incidents and the outcome of an inspection.
-- The commands of a rule run one after another on the host; the runner answers a command with its
-- output and exit code. Verdicts, Files and
-- Rules evaluate one rule, Drift the rules of a host, and Outcome is the inspection around them.
pub mod Verdicts
pub mod Files
pub mod Rules
pub mod Drift
pub mod Outcome
pub mod Incidents
pub mod Disk
mod Examples
