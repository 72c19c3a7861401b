-- ===== src/Center/Hub/Sessions.antt =====
-- crates/novbot-center/src/hub.rs: `register`, `unregister` and `evict` over histories of the hub.
use novbot.Common.{
  ℕ, ◌≡◌, ◌≢◌, ap, ◌∙◌, Bool, true, List, [], ◌∷◌, some, arith, All, Bool-cases, Option-cases, ◌⊎◌,
  inl, inr,
}
use novbot.Text.{Str, str_eq}
use novbot.Text.Laws.{str_eq_iff, str_eq_refl}
use novbot.Center.Hub.{
  Hub, Channel, register, unregister, evict, note_abi, issue_ticket_ttl, check_record, check_ticket,
  is_channel, is_connected, send,
}
use novbot.Center.Hub.Tickets.{
  Op, connect, disconnect, drop_session, report_abi, issue, redeem, apply, run,
}

-- An operation that leaves the channel `tx` of the node in place: it may end other sessions of the
-- node, and do anything with other nodes.
abbrev pub Spares : Str → Channel → Op → Type 0
Spares node_id tx (connect n c) = n ≢ node_id
Spares node_id tx (disconnect n c) = (n ≢ node_id) ⊎ (c ≢ tx)
Spares node_id tx (drop_session n) = n ≢ node_id
Spares node_id tx op = Unit

check_ticket-inner :
    (hub : Hub) (t : Str) (now : ℕ) (n sha : Str)
    → ((check_ticket hub t now n sha).1).inner ≡ hub.inner
unfolding check_ticket check_record
check_ticket-inner hub t now n sha = elim (Option-cases (hub.tickets t)) [
  | inl k ↦ rw (k, check_ticket)
  | inr (rec, k) ↦ rw (k, check_ticket) (ground arith)
]

unregister-spares :
    (hub : Hub) (n node_id : Str) (c tx : Channel)
    → hub.inner node_id ≡ some tx
    → (n ≢ node_id) ⊎ (c ≢ tx)
    → (unregister hub n c).inner node_id ≡ some tx
unfolding unregister
unregister-spares hub n node_id c tx e why = elim (Bool-cases (is_channel c (hub.inner n))) [
  | inr other ↦ rw other e
  | inl same ↦ elim (Bool-cases (str_eq n node_id)) [
    | inr away ↦ rw (same, away) e
    | inl here_it_is ↦
        let at : n ≡ node_id = (str_eq_iff n node_id).0 here_it_is in
        let same' : is_channel c (some tx) ≡ true = cc (ap hub.inner at) in
        absurd (elim why [ inl ne ↦ ne at | inr ne ↦ ne (ground arith) ])
  ]
]

apply-Spares :
    (hub : Hub) (op : Op) (node_id : Str) (tx : Channel)
    → hub.inner node_id ≡ some tx
    → Spares node_id tx op
    → (apply hub op).inner node_id ≡ some tx
unfolding apply
apply-Spares hub (connect n c) node_id tx e ne =
    unfold register in ground (arith, str_eq_iff n node_id)
apply-Spares hub (disconnect n c) node_id tx e why = unregister-spares hub n node_id c tx e why
apply-Spares hub (drop_session n) node_id tx e ne =
    unfold evict in ground (arith, str_eq_iff n node_id)
apply-Spares hub (report_abi n a) node_id tx e q = unfold note_abi in e
apply-Spares hub (issue t now n sha ttl) node_id tx e q = unfold issue_ticket_ttl in e
apply-Spares hub (redeem t now n sha) node_id tx e q =
    ap (λ m. m node_id) (check_ticket-inner hub t now n sha) ∙ e

run-Spares :
    (hub : Hub) (ops : List Op) (node_id : Str) (tx : Channel)
    → hub.inner node_id ≡ some tx
    → All (Spares node_id tx) ops
    → (run hub ops).inner node_id ≡ some tx
unfolding run
run-Spares hub [] node_id tx e q = e
run-Spares hub (op ∷ ops) node_id tx e (q, qs) =
    run-Spares (apply hub op) ops node_id tx (apply-Spares hub op node_id tx e q) qs

register-inner :
    (hub : Hub) (node_id : Str) (tx : Channel) → (register hub node_id tx).inner node_id ≡ some tx
unfolding register
register-inner hub node_id tx = rw (str_eq_refl node_id)

served :
    (hub : Hub) (node_id : Str) (tx : Channel) (is_open : Channel → Bool)
    → hub.inner node_id ≡ some tx
    → (is_connected hub node_id ≡ true) × (send is_open hub node_id ≡ is_open tx)
unfolding is_connected send
served hub node_id tx is_open e = (ground arith, ground arith)

-- A registered session stays the one that messages go to as long as the node does not register
-- again, is not evicted, and that very session does not end.
pub send-register :
    (hub : Hub) (node_id : Str) (tx : Channel) (ops : List Op) (is_open : Channel → Bool)
    → All (Spares node_id tx) ops
    → let later = run (register hub node_id tx) ops in
      (is_connected later node_id ≡ true) × (send is_open later node_id ≡ is_open tx)
send-register hub node_id tx ops is_open quiet =
    served (run (register hub node_id tx) ops) node_id tx is_open
      (run-Spares (register hub node_id tx) ops node_id tx (register-inner hub node_id tx) quiet)
