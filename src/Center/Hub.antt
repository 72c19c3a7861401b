-- ===== src/Center/Hub.antt =====
-- crates/novbot-center/src/hub.rs: live sessions, the reported ABI and the fetch tickets.
-- A `HashMap` is a function from keys, a sender is the number of its channel, an `Instant` is a
-- number of milliseconds, and the random ticket and the clock are arguments.
pub mod Tickets
pub mod Lifetime
pub mod Sessions
use novbot.Common.{
  ℕ, ◌+◌, ◌*◌, Bool, true, false, not, ◌||◌, Option, none, some, leb, ltb, ◌==◌, if◌then◌else◌,
  Result, ok, err,
}
use novbot.Text.{Str, str_eq, trim, to_ascii_lowercase}

abbrev pub Map : Type 0 → Type 0
Map V = Str → Option V

abbrev pub insert : {V : Type 0} → Str → V → Map V → Map V
insert k v m = λ j. if str_eq k j then some v else m j

abbrev pub remove : {V : Type 0} → Str → Map V → Map V
remove k m = λ j. if str_eq k j then none else m j

abbrev pub keep_if : {V : Type 0} → (V → Bool) → Option V → Option V
keep_if p none = none
keep_if p (some v) = if p v then some v else none

abbrev pub retain : {V : Type 0} → (V → Bool) → Map V → Map V
retain p m = λ j. keep_if p (m j)

abbrev pub contains_key : {V : Type 0} → Str → Map V → Bool
contains_key k m = elim (m k) [ none ↦ false | some _ ↦ true ]

abbrev pub Channel : Type 0
Channel = ℕ

pub record TicketRec : Type 0 where
  pub node_id : Str
  pub sha256 : Str
  pub expires : ℕ

pub record Hub : Type 0 where
  pub inner : Map Channel
  pub abi : Map Str
  pub tickets : Map TicketRec

abbrev pub ticket_ttl : ℕ
ticket_ttl = 15 * 60 * 1000

unfoldable pub new : Hub
new = record { inner = λ k. none; abi = λ k. none; tickets = λ k. none }

unfoldable pub register : Hub → Str → Channel → Hub
register hub node_id tx = record hub { inner = insert node_id tx hub.inner }

-- `if let Some(existing)`, and `same_channel`.
abbrev pub is_channel : Channel → Option Channel → Bool
is_channel tx none = false
is_channel tx (some existing) = existing == tx

unfoldable pub unregister : Hub → Str → Channel → Hub
unregister hub node_id tx =
    if is_channel tx (hub.inner node_id)
    then record hub { inner = remove node_id hub.inner }
    else hub

unfoldable pub evict : Hub → Str → Hub
evict hub node_id = record hub { inner = remove node_id hub.inner }

unfoldable pub is_connected : Hub → Str → Bool
is_connected hub node_id = contains_key node_id hub.inner

-- `is_open` says whether the receiver of a channel is alive.
unfoldable pub send : (Channel → Bool) → Hub → Str → Bool
send is_open hub node_id = elim (hub.inner node_id) [ none ↦ false | some tx ↦ is_open tx ]

unfoldable pub note_abi : Hub → Str → Str → Hub
note_abi hub node_id skill_abi = record hub { abi = insert node_id skill_abi hub.abi }

unfoldable pub skill_abi : Hub → Str → Option Str
skill_abi hub node_id = hub.abi node_id

-- `sha256.trim().to_ascii_lowercase()`.
unfoldable pub normal_sha : Str → Str
normal_sha sha256 = to_ascii_lowercase (trim sha256)

unfoldable pub issue_ticket_ttl : Hub → Str → ℕ → Str → Str → ℕ → Hub
issue_ticket_ttl hub ticket now node_id sha256 ttl =
    let live = retain (λ rec. ltb now rec.expires) hub.tickets in
    record hub {
      tickets =
          insert ticket
            (record { node_id = node_id; sha256 = normal_sha sha256; expires = now + ttl }) live;
    }

unfoldable pub issue_ticket : Hub → Str → ℕ → Str → Str → Hub
issue_ticket hub ticket now node_id sha256 =
    issue_ticket_ttl hub ticket now node_id sha256 ticket_ttl

pub data TicketError : Type 0 where
  bad expired mismatch : TicketError

-- The part of `check_ticket` behind the lookup.
unfoldable pub check_record :
    Hub → Str → ℕ → Str → Str → TicketRec → Result (Unit {0}) TicketError × Hub
check_record hub ticket now node_id sha256 rec =
    if leb rec.expires now
    then (err expired, record hub { tickets = remove ticket hub.tickets })
    else if not (str_eq rec.node_id node_id) || not (str_eq rec.sha256 (normal_sha sha256))
    then (err mismatch, hub)
    else (ok tt, hub)

unfoldable pub check_ticket : Hub → Str → ℕ → Str → Str → Result (Unit {0}) TicketError × Hub
check_ticket hub ticket now node_id sha256 = elim (hub.tickets ticket) [
  | none ↦ (err bad, hub)
  | some rec ↦ check_record hub ticket now node_id sha256 rec
]
