-- ===== src/Node/Skills/Host/History.antt =====
-- crates/novbot-node/src/skills/mod.rs: the calls that change a `SkillHost`, one after the other.
-- They never interleave: `reconcile` holds a lock, and `open` comes before every call.
use novbot.Common.{List, [], ◌∷◌, Option, none, some}
use novbot.Node.Skills.{InstallLimits, DesiredSet, Active}
use novbot.Node.Skills.World.{World, Outside}
use novbot.Node.Skills.Host.{Inner}
use novbot.Node.Skills.Host.Boot.{boot}
use novbot.Node.Skills.Host.Reconcile.{reconcile}

pub data Event : Type 0 where
  apply : DesiredSet → Event
  restart : Event

abbrev pub Node : Type 0
Node = Option Inner × World

abbrev pub active_of : Node → Active
active_of (none, w) = []
active_of (some inner, w) = inner.skills

-- A node whose host did not open waits for the next restart.
unfoldable pub step : Outside → InstallLimits → Event → Node → Node
step out limits restart (host, w) = boot out w
step out limits (apply desired) (none, w) = (none, w)
step out limits (apply desired) (some inner, w) =
    let applied = (reconcile out limits desired inner w).1 in (some applied.0, applied.1)

unfoldable pub run : Outside → InstallLimits → List Event → Node → Node
run out limits [] node = node
run out limits (event ∷ events) node = run out limits events (step out limits event node)
