-- ===== src/Node/Skills/Proto/Limits.antt =====
-- crates/novbot-node/src/skills/mod.rs: the limits that a policy message can set.
use novbot.Common.{ℕ, ◌*◌, ◌≤◌, ◌≡◌, Option, none, some, arith}
use novbot.Node.Skills.{default_policy, clamp, clamp_timeout_ms, clamp_memory_bytes}
use novbot.Node.Skills.Host.{Inner, resize_runs}
use novbot.Node.Skills.Proto.{ℤ, pos, negsuc, PolicyMessage, nonzero_u32, policy_from_proto}

nonzero_u32-positive : (value : ℤ) (default : ℕ) → 1 ≤ default → 1 ≤ nonzero_u32 value default
unfolding nonzero_u32
nonzero_u32-positive (negsuc n) default h = h
nonzero_u32-positive (pos n) default h = ground arith

policy-positive :
    (msg : Option PolicyMessage)
    → (1 ≤ (policy_from_proto msg).max_concurrent_runs)
      × (1 ≤ (policy_from_proto msg).max_timeout_ms)
      × (1 ≤ (policy_from_proto msg).max_memory_mb)
unfolding policy_from_proto default_policy
policy-positive none = (omega arith, omega arith, omega arith)
policy-positive (some m) = (
  nonzero_u32-positive m.max_concurrent_runs 4 (omega arith),
  nonzero_u32-positive m.max_timeout_ms 30000 (omega arith),
  nonzero_u32-positive m.max_memory_mb 64 (omega arith),
)

clamp-range :
    (value : Option ℕ) (cap : ℕ) → 1 ≤ cap → (1 ≤ clamp value cap) × (clamp value cap ≤ cap)
clamp-range none cap h = (h, omega arith)
clamp-range (some v) cap h = (ground arith, ground arith)

-- With a policy from a message of the center, whatever it holds or if there is none, the time
-- limit of a skill is at least one millisecond and at most that of the policy, its memory limit
-- at least one byte and at most that of the policy, whatever the manifest asks for, and
-- resize_runs sets exactly the limit of the policy.
pub policy_from_proto-limits :
    (msg : Option PolicyMessage) (inner : Inner) (timeout_ms memory_mb : Option ℕ)
    → (1 ≤ clamp_timeout_ms timeout_ms (policy_from_proto msg).max_timeout_ms)
      × (clamp_timeout_ms timeout_ms (policy_from_proto msg).max_timeout_ms
          ≤ (policy_from_proto msg).max_timeout_ms)
      × (1 ≤ clamp_memory_bytes memory_mb (policy_from_proto msg).max_memory_mb)
      × (clamp_memory_bytes memory_mb (policy_from_proto msg).max_memory_mb
          ≤ (policy_from_proto msg).max_memory_mb * (1024 * 1024))
      × ((resize_runs (policy_from_proto msg).max_concurrent_runs inner).run_limit
          ≡ (policy_from_proto msg).max_concurrent_runs)
unfolding clamp_timeout_ms clamp_memory_bytes resize_runs
policy_from_proto-limits msg inner timeout_ms memory_mb =
    let (runs, timeout, memory) = policy-positive msg in
    let (low, high) = clamp-range timeout_ms (policy_from_proto msg).max_timeout_ms timeout in
    let (least, most) = clamp-range memory_mb (policy_from_proto msg).max_memory_mb memory in
    (low, high, ground arith, ground arith, ground arith)
