-- ===== src/Center/Hub/Tickets.antt =====
-- crates/novbot-center/src/hub.rs: histories of the hub, and `check_ticket` after them.
use novbot.Common.{
  ℕ, ◌+◌, ◌<◌, ◌≤◌, ◌≡◌, sym, ap, ◌∙◌, not, List, [], ◌∷◌, ◌||◌, Option, none, some, leb, ltb,
  arith, Result, ok, err, Any, here, there, Any-map, Bool-cases, Option-cases, ◌⊎◌, inl, inr,
}
use novbot.Text.{Str, str_eq}
use novbot.Text.Laws.{str_eq_iff}
use novbot.Center.Hub.{
  Hub, Channel, TicketRec, TicketError, bad, expired, mismatch, register, unregister, evict,
  note_abi, normal_sha, issue_ticket_ttl, check_record, check_ticket, is_channel, keep_if, remove,
  new,
}

-- What HTTP handlers and sessions do to the hub, each with the time at which it happens.
pub data Op : Type 0 where
  connect : Str → Channel → Op
  disconnect : Str → Channel → Op
  drop_session : Str → Op
  report_abi : Str → Str → Op
  issue : (ticket : Str) (now : ℕ) (node_id sha256 : Str) (ttl : ℕ) → Op
  redeem : (ticket : Str) (now : ℕ) (node_id sha256 : Str) → Op

unfoldable pub apply : Hub → Op → Hub
apply hub (connect n tx) = register hub n tx
apply hub (disconnect n tx) = unregister hub n tx
apply hub (drop_session n) = evict hub n
apply hub (report_abi n a) = note_abi hub n a
apply hub (issue t now n sha ttl) = issue_ticket_ttl hub t now n sha ttl
apply hub (redeem t now n sha) = (check_ticket hub t now n sha).1

unfoldable pub run : Hub → List Op → Hub
run hub [] = hub
run hub (op ∷ ops) = run (apply hub op) ops

-- The record that an operation stores under a ticket.
pub data Stores (ticket : Str) (rec : TicketRec) : Op → Type 0 where
  stored :
      {now ttl : ℕ} {node_id sha256 : Str}
      → rec.node_id ≡ node_id
      → rec.sha256 ≡ normal_sha sha256
      → rec.expires ≡ now + ttl
      → Stores ticket rec (issue ticket now node_id sha256 ttl)

pub unregister-tickets :
    (hub : Hub) (n : Str) (tx : Channel) → (unregister hub n tx).tickets ≡ hub.tickets
unfolding unregister
unregister-tickets hub n tx = elim (Bool-cases (is_channel tx (hub.inner n))) [
  | inl e ↦ rw e
  | inr e ↦ rw e
]

check_record-kept :
    (hub : Hub) (t : Str) (now : ℕ) (n sha : Str) (rec : TicketRec) (ticket : Str) (r : TicketRec)
    → ((check_record hub t now n sha rec).1).tickets ticket ≡ some r
    → hub.tickets ticket ≡ some r
unfolding check_record
check_record-kept hub t now n sha rec ticket r e = ground arith

issue-tickets :
    (hub : Hub) (t : Str) (now : ℕ) (n sha : Str) (ttl : ℕ) (ticket : Str) (rec : TicketRec)
    → (issue_ticket_ttl hub t now n sha ttl).tickets ticket ≡ some rec
    → (hub.tickets ticket ≡ some rec) ⊎ Stores ticket rec (issue t now n sha ttl)
unfolding issue_ticket_ttl
issue-tickets hub t now n sha ttl ticket rec e = elim (Bool-cases (str_eq t ticket)) [
  | inl same ↦
      let at : t ≡ ticket = (str_eq_iff t ticket).0 same in
      let e' = rw same at e in rw at (inr (stored (cc) (cc) (cc)))
  | inr other ↦ inl (kept (hub.tickets ticket) (rw other at e))
]
  where
    kept : (o : Option TicketRec) → keep_if (λ r. ltb now r.expires) o ≡ some rec → o ≡ some rec
    kept none k = cc
    kept (some r) k = ground arith

redeem-tickets :
    (hub : Hub) (t : Str) (now : ℕ) (n sha : Str) (ticket : Str) (rec : TicketRec)
    → ((check_ticket hub t now n sha).1).tickets ticket ≡ some rec
    → hub.tickets ticket ≡ some rec
unfolding check_ticket
redeem-tickets hub t now n sha ticket rec e = elim (Option-cases (hub.tickets t)) [
  | inl k ↦ rw (k, check_ticket) at e
  | inr (r, k) ↦ check_record-kept hub t now n sha r ticket rec (rw (k, check_ticket) at e)
]

apply-tickets :
    (hub : Hub) (op : Op) (ticket : Str) (rec : TicketRec)
    → (apply hub op).tickets ticket ≡ some rec
    → (hub.tickets ticket ≡ some rec) ⊎ Stores ticket rec op
unfolding apply
apply-tickets hub (connect n tx) ticket rec e = unfold register in inl e
apply-tickets hub (disconnect n tx) ticket rec e =
    inl (ap (λ m. m ticket) (sym (unregister-tickets hub n tx)) ∙ e)
apply-tickets hub (drop_session n) ticket rec e = unfold evict in inl e
apply-tickets hub (report_abi n a) ticket rec e = unfold note_abi in inl e
apply-tickets hub (issue t now n sha ttl) ticket rec e =
    issue-tickets hub t now n sha ttl ticket rec e
apply-tickets hub (redeem t now n sha) ticket rec e =
    inl (redeem-tickets hub t now n sha ticket rec e)

run-tickets :
    (hub : Hub) (ops : List Op) (ticket : Str) (rec : TicketRec)
    → (run hub ops).tickets ticket ≡ some rec
    → (hub.tickets ticket ≡ some rec) ⊎ Any (Stores ticket rec) ops
unfolding run
run-tickets hub [] ticket rec e = inl e
run-tickets hub (op ∷ ops) ticket rec e = elim (run-tickets (apply hub op) ops ticket rec e) [
  | inr later ↦ inr (there later)
  | inl now ↦ elim (apply-tickets hub op ticket rec now) [
    | inl before ↦ inl before
    | inr here_it_is ↦ inr (here here_it_is)
  ]
]

-- The four outcomes of `check_ticket`.
pub data Outcome (hub : Hub) (ticket : Str) (now : ℕ) (node_id sha256 : Str)
    : Result (Unit {0}) TicketError × Hub → Type 0 where
  unknown : hub.tickets ticket ≡ none → Outcome hub ticket now node_id sha256 (err bad, hub)
  too_late :
      (rec : TicketRec)
      → hub.tickets ticket ≡ some rec
      → rec.expires ≤ now
      → Outcome hub ticket now node_id sha256
          (err expired, record hub { tickets = remove ticket hub.tickets })
  other :
      (rec : TicketRec)
      → hub.tickets ticket ≡ some rec
      → now < rec.expires
      → ¬ ((rec.node_id ≡ node_id) × (rec.sha256 ≡ normal_sha sha256))
      → Outcome hub ticket now node_id sha256 (err mismatch, hub)
  accepted :
      (rec : TicketRec)
      → hub.tickets ticket ≡ some rec
      → now < rec.expires
      → rec.node_id ≡ node_id
      → rec.sha256 ≡ normal_sha sha256
      → Outcome hub ticket now node_id sha256 (ok tt, hub)

check_record-Outcome :
    (hub : Hub) (ticket : Str) (now : ℕ) (node_id sha256 : Str) (rec : TicketRec)
    → hub.tickets ticket ≡ some rec
    → Outcome hub ticket now node_id sha256 (check_record hub ticket now node_id sha256 rec)
unfolding check_record
check_record-Outcome hub ticket now node_id sha256 rec e = elim (Bool-cases (leb rec.expires now)) [
  | inl late ↦ rw late (too_late rec e (ground arith))
  | inr live ↦
      elim (Bool-cases
        (not (str_eq rec.node_id node_id) || not (str_eq rec.sha256 (normal_sha sha256)))) [
          | inl differs ↦
              rw (live, differs)
                (other rec e (ground arith) (λ (a, b). ground (
                  arith,
                  str_eq_iff rec.node_id node_id,
                  str_eq_iff rec.sha256 (normal_sha sha256),
                )))
          | inr fits ↦
              rw (live, fits)
                (accepted rec e (ground arith) (ground (arith, str_eq_iff rec.node_id node_id))
                  (ground (arith, str_eq_iff rec.sha256 (normal_sha sha256))))
        ]
]

-- check_ticket answers bad for an unknown ticket, expired for one whose time is over, which it
-- removes, mismatch for one of another node or package, and accepts any other; only expiry
-- changes the hub.
pub check_ticket-Outcome :
    (hub : Hub) (ticket : Str) (now : ℕ) (node_id sha256 : Str)
    → Outcome hub ticket now node_id sha256 (check_ticket hub ticket now node_id sha256)
unfolding check_ticket
check_ticket-Outcome hub ticket now node_id sha256 = elim (Option-cases (hub.tickets ticket)) [
  | inl none_there ↦ rw (none_there, check_ticket) (unknown none_there)
  | inr (rec, found) ↦
      rw (found, check_ticket) (check_record-Outcome hub ticket now node_id sha256 rec found)
]

-- The operation issued this ticket for the node and the package, and its time is not over.
pub data IssuedFor (ticket : Str) (now : ℕ) (node_id sha256 : Str) : Op → Type 0 where
  issued :
      {at ttl : ℕ} {node_id' sha256' : Str}
      → node_id' ≡ node_id
      → normal_sha sha256' ≡ normal_sha sha256
      → now < at + ttl
      → IssuedFor ticket now node_id sha256 (issue ticket at node_id' sha256' ttl)

Outcome-ok :
    {hub : Hub} {ticket : Str} {now : ℕ} {node_id sha256 : Str}
    {r : Result (Unit {0}) TicketError × Hub}
    → Outcome hub ticket now node_id sha256 r
    → r.0 ≡ ok tt
    → (rec : TicketRec) × (hub.tickets ticket ≡ some rec)
      × (now < rec.expires)
      × (rec.node_id ≡ node_id)
      × (rec.sha256 ≡ normal_sha sha256)
Outcome-ok (unknown e) k = cc
Outcome-ok (too_late rec e l) k = cc
Outcome-ok (other rec e l n) k = cc
Outcome-ok (accepted rec e l a b) k = (rec, e, l, a, b)

Stores→IssuedFor :
    {ticket : Str} {rec : TicketRec} {now : ℕ} {node_id sha256 : Str} (op : Op)
    → Stores ticket rec op
    → now < rec.expires
    → rec.node_id ≡ node_id
    → rec.sha256 ≡ normal_sha sha256
    → IssuedFor ticket now node_id sha256 op
Stores→IssuedFor _ (stored a b c) l n s = issued (sym a ∙ n) (sym b ∙ s) (ground arith)

-- After any history of a fresh hub, a ticket that check_ticket accepts was issued in it for that
-- node and that package, and its time is not over.
pub accepted-IssuedFor :
    (ops : List Op) (ticket : Str) (now : ℕ) (node_id sha256 : Str)
    → (check_ticket (run new ops) ticket now node_id sha256).0 ≡ ok tt
    → Any (IssuedFor ticket now node_id sha256) ops
accepted-IssuedFor ops ticket now node_id sha256 e =
    let (rec, found, live, node, sha) =
      Outcome-ok (check_ticket-Outcome (run new ops) ticket now node_id sha256) e in
    elim (run-tickets new ops ticket rec found) [
      | inl fresh ↦ unfold new in cc
      | inr stores ↦ Any-map ops (λ op s. Stores→IssuedFor op s live node sha) stores
    ]
