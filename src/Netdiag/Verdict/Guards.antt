-- ===== src/Netdiag/Verdict/Guards.antt =====
-- What a triage requires, and what it leaves behind.
use pantau.Common.{[], ◌∷◌, ℕ, ◌≡◌, ◌≤◌, Bool, true, false, none, arith, length}
use pantau.Common.Text.{Text, teq, trim_space}
use pantau.Common.Map.{Map, number_key, lookup, store, lookup-store, lookup-delete}
use pantau.Netdiag.Parsers.{GoLib}
use pantau.Netdiag.Request.{TriageRequest, resolve, validate_target, all_target_bytes}
use pantau.Netdiag.Verdict.{World, judged, Findings, TriageVerdict, execute_triage}

-- Whatever its outcome, a triage leaves exactly the hosts in flight that were so before it.
pub lookup-execute_triage :
    (g : GoLib) (w : World) (r : TriageRequest) (m : Map ℕ Bool) (host : ℕ)
    → lookup host (execute_triage g w r m).1 ≡ lookup host m
unfolding execute_triage
lookup-execute_triage g w r m host =
    let h = (resolve w.preset w.app_setting w.db_setting r).source_host_id in
    ground (arith, lookup-delete h host (store h true m), lookup-store h host true m)

-- Letters, digits and _.:- alone, from one to 255 of them.
abbrev pub IsSafeTarget : Text → Type 0
IsSafeTarget t = (all_target_bytes t ≡ true) × (1 ≤ length t) × (length t ≤ 255)

length-teq : (s : Text) → teq s [] ≡ false → 1 ≤ length s
unfolding teq
length-teq [] e = ground (arith, e)
length-teq (c ∷ s) e = ground arith

validate_target-IsSafeTarget : (t : Text) → validate_target t ≡ none → IsSafeTarget (trim_space t)
unfolding validate_target teq
validate_target-IsSafeTarget t e = ground (arith, length-teq (trim_space t))

-- The address that a request stands for, trimmed.
abbrev pub target_of : World → TriageRequest → Text
target_of w r = trim_space (resolve w.preset w.app_setting w.db_setting r).target_address

judged_valid :
    (g : GoLib) (w : World) (r : TriageRequest) (m : Map ℕ Bool) (f : Findings) (v : TriageVerdict)
    → (execute_triage g w r m).0 ≡ judged f v
    → validate_target (resolve w.preset w.app_setting w.db_setting r).target_address ≡ none
unfolding execute_triage
judged_valid g w r m f v e = ground (arith, e)

-- A triage reaches a verdict only for a target of one to 255 letters, digits and _.:- so that no
-- address can end the word of a command that it stands in.
pub judged-IsSafeTarget :
    (g : GoLib) (w : World) (r : TriageRequest) (m : Map ℕ Bool) (f : Findings) (v : TriageVerdict)
    → (execute_triage g w r m).0 ≡ judged f v
    → IsSafeTarget (target_of w r)
judged-IsSafeTarget g w r m f v e =
    validate_target-IsSafeTarget (resolve w.preset w.app_setting w.db_setting r).target_address
      (judged_valid g w r m f v e)
