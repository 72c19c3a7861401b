-- ===== src/Center/Examples.antt =====
-- A hub with one node and one ticket, for crates/novbot-center/src/hub.rs.
use mathlib.Core.Path.{◌≡◌, refl}
use novbot.Common.{true, List, [], ◌∷◌, ok, Any, ◌≢◌, arith, inr}
use novbot.Text.{
  Str, codes, str_eq, trim, trim_start_by, trim_end_by, is_whitespace, to_ascii_lowercase, lower,
  is_upper,
}
use novbot.Center.Hub.{
  new, register, unregister, evict, note_abi, is_connected, send, issue_ticket_ttl, normal_sha,
  check_ticket, check_record,
}
use novbot.Center.Hub.Tickets.{
  Op, connect, disconnect, report_abi, issue, redeem, run, apply, Outcome, IssuedFor,
  check_ticket-Outcome, accepted-IssuedFor,
}
use novbot.Center.Hub.Lifetime.{check-issue}
use novbot.Center.Hub.Sessions.{send-register}

program : Unit {0}
unfolding str_eq trim trim_start_by trim_end_by is_whitespace to_ascii_lowercase lower is_upper new
    register unregister evict note_abi is_connected send issue_ticket_ttl normal_sha check_ticket
    check_record run apply
program = tt

abbrev node : Str
node = codes "n1"

abbrev sha : Str
sha = codes " AB12 "

abbrev history : List Op
history = connect node 1 ∷ issue (codes "t") 1000 node sha 500 ∷ report_abi node (codes "1.0") ∷ []

accepted : (check_ticket (run new history) (codes "t") 1400 node (codes "ab12")).0 ≡ ok tt
unfolding program
accepted = refl

late : (check_ticket (run new history) (codes "t") 1500 node (codes "ab12")).0 ≢ ok tt
unfolding program
late = λ e. cc

accepted-IssuedFor_example : Any (IssuedFor (codes "t") 1400 node (codes "ab12")) history
accepted-IssuedFor_example =
    accepted-IssuedFor history (codes "t") 1400 node (codes "ab12") accepted

check_ticket-Outcome_example :
    Outcome
      (run new history)
      (codes "t")
      1500
      node
      (codes "ab12")
      (check_ticket (run new history) (codes "t") 1500 node (codes "ab12"))
check_ticket-Outcome_example =
    check_ticket-Outcome (run new history) (codes "t") 1500 node (codes "ab12")

same_sha : normal_sha (codes "ab12") ≡ normal_sha sha
unfolding program
same_sha = refl

abbrev busy : List Op
busy = disconnect node 1 ∷ redeem (codes "t") 1200 node sha ∷ []

check-issue_example :
    let later = run (issue_ticket_ttl new (codes "t") 1000 node sha 500) busy in
    check_ticket later (codes "t") 1400 node (codes "ab12") ≡ (ok tt, later)
check-issue_example =
    check-issue new (codes "t") 1000 node sha (codes "ab12") 500 busy 1400 same_sha
      (tt, (omega arith, tt)) (omega arith)

-- An older session of the node ends behind the new one.
abbrev old_ends : List Op
old_ends = disconnect node 1 ∷ []

send-register_example :
    let later = run (register new node 2) old_ends in
    (is_connected later node ≡ true) × (send (λ c. true) later node ≡ true)
send-register_example = send-register new node 2 old_ends (λ c. true) (inr (omega arith), tt)
