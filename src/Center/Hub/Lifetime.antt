-- ===== src/Center/Hub/Lifetime.antt =====
-- crates/novbot-center/src/hub.rs: a ticket from its issue to its end, over histories of the hub.
use novbot.Common.{
  ℕ, ◌+◌, ◌<◌, ◌≡◌, ◌≢◌, refl, sym, ap, ◌∙◌, List, [], ◌∷◌, some, arith, ok, All, Bool-cases,
  Option-cases, inl, inr,
}
use novbot.Text.{Str, str_eq}
use novbot.Text.Laws.{str_eq_iff, str_eq_refl}
use novbot.Center.Hub.{
  Hub, TicketRec, register, evict, note_abi, normal_sha, issue_ticket_ttl, check_record,
  check_ticket,
}
use novbot.Center.Hub.Tickets.{
  Op, connect, disconnect, drop_session, report_abi, issue, redeem, apply, run, unregister-tickets,
}

-- An operation before the time `expires` that does not issue the same ticket text again.
abbrev pub IsQuiet : Str → ℕ → Op → Type 0
IsQuiet ticket expires (issue t now n sha ttl) = (t ≢ ticket) × (now < expires)
IsQuiet ticket expires (redeem t now n sha) = now < expires
IsQuiet ticket expires op = Unit

issue-keeps :
    (hub : Hub) (t : Str) (now : ℕ) (n sha : Str) (ttl : ℕ) (ticket : Str) (rec : TicketRec)
    → hub.tickets ticket ≡ some rec
    → t ≢ ticket
    → now < rec.expires
    → (issue_ticket_ttl hub t now n sha ttl).tickets ticket ≡ some rec
unfolding issue_ticket_ttl
issue-keeps hub t now n sha ttl ticket rec e ne live = elim (Bool-cases (str_eq t ticket)) [
  | inl same ↦ absurd (ne ((str_eq_iff t ticket).0 same))
  | inr other ↦ rw (other, e) (ground arith)
]

record-keeps :
    (hub : Hub) (t : Str) (now : ℕ) (n sha : Str) (ticket : Str) (r rec : TicketRec)
    → hub.tickets ticket ≡ some rec
    → hub.tickets t ≡ some r
    → now < rec.expires
    → ((check_record hub t now n sha r).1).tickets ticket ≡ some rec
unfolding check_record
record-keeps hub t now n sha ticket r rec e found live = elim (Bool-cases (str_eq t ticket)) [
  | inl same ↦
      let one : r ≡ rec = cc (ap hub.tickets ((str_eq_iff t ticket).0 same)) in
      ground (arith, ap TicketRec.expires one)
  | inr other ↦ ground arith
]

redeem-keeps :
    (hub : Hub) (t : Str) (now : ℕ) (n sha : Str) (ticket : Str) (rec : TicketRec)
    → hub.tickets ticket ≡ some rec
    → now < rec.expires
    → ((check_ticket hub t now n sha).1).tickets ticket ≡ some rec
unfolding check_ticket
redeem-keeps hub t now n sha ticket rec e live = elim (Option-cases (hub.tickets t)) [
  | inl k ↦ rw (k, check_ticket) e
  | inr (r, k) ↦ rw (k, check_ticket) (record-keeps hub t now n sha ticket r rec e k live)
]

apply-keeps :
    (hub : Hub) (op : Op) (ticket : Str) (rec : TicketRec)
    → hub.tickets ticket ≡ some rec
    → IsQuiet ticket rec.expires op
    → (apply hub op).tickets ticket ≡ some rec
unfolding apply
apply-keeps hub (connect n tx) ticket rec e q = unfold register in e
apply-keeps hub (disconnect n tx) ticket rec e q =
    ap (λ m. m ticket) (unregister-tickets hub n tx) ∙ e
apply-keeps hub (drop_session n) ticket rec e q = unfold evict in e
apply-keeps hub (report_abi n a) ticket rec e q = unfold note_abi in e
apply-keeps hub (issue t now n sha ttl) ticket rec e (ne, live) =
    issue-keeps hub t now n sha ttl ticket rec e ne live
apply-keeps hub (redeem t now n sha) ticket rec e q = redeem-keeps hub t now n sha ticket rec e q

run-keeps :
    (hub : Hub) (ops : List Op) (ticket : Str) (rec : TicketRec)
    → hub.tickets ticket ≡ some rec
    → All (IsQuiet ticket rec.expires) ops
    → (run hub ops).tickets ticket ≡ some rec
unfolding run
run-keeps hub [] ticket rec e q = e
run-keeps hub (op ∷ ops) ticket rec e (q, qs) =
    run-keeps (apply hub op) ops ticket rec (apply-keeps hub op ticket rec e q) qs

check-live :
    (hub : Hub) (ticket : Str) (now : ℕ) (node_id sha256 : Str) (rec : TicketRec)
    → hub.tickets ticket ≡ some rec
    → now < rec.expires
    → rec.node_id ≡ node_id
    → rec.sha256 ≡ normal_sha sha256
    → check_ticket hub ticket now node_id sha256 ≡ (ok tt, hub)
unfolding check_ticket check_record
check-live hub ticket now node_id sha256 rec e live a b =
    rw (e, check_ticket)
      (ground (arith, str_eq_iff rec.node_id node_id, str_eq_iff rec.sha256 (normal_sha sha256)))

abbrev fresh_record : Str → Str → ℕ → TicketRec
fresh_record node_id sha256 expires = record {
  node_id = node_id;
  sha256 = normal_sha sha256;
  expires = expires;
}

issue-stores :
    (hub : Hub) (ticket : Str) (at : ℕ) (node_id sha256 : Str) (ttl : ℕ)
    → (issue_ticket_ttl hub ticket at node_id sha256 ttl).tickets ticket
      ≡ some (fresh_record node_id sha256 (at + ttl))
unfolding issue_ticket_ttl
issue-stores hub ticket at node_id sha256 ttl = rw (str_eq_refl ticket)

-- An issued ticket is accepted for its node and any spelling of its package until its time is
-- over, after any operations before that time that do not issue the same ticket again; the check
-- leaves the hub as it is.
pub check-issue :
    (hub : Hub) (ticket : Str) (at : ℕ) (node_id sha256 sha256' : Str) (ttl : ℕ) (ops : List Op)
    (now : ℕ)
    → normal_sha sha256' ≡ normal_sha sha256
    → All (IsQuiet ticket (at + ttl)) ops
    → now < at + ttl
    → let later = run (issue_ticket_ttl hub ticket at node_id sha256 ttl) ops in
      check_ticket later ticket now node_id sha256' ≡ (ok tt, later)
check-issue hub ticket at node_id sha256 sha256' ttl ops now same quiet live =
    let rec = fresh_record node_id sha256 (at + ttl) in
    let after = issue_ticket_ttl hub ticket at node_id sha256 ttl in
    check-live (run after ops) ticket now node_id sha256' rec
      (run-keeps after ops ticket rec (issue-stores hub ticket at node_id sha256 ttl) quiet) live
      refl (sym same)
