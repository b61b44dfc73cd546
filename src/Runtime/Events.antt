-- ===== src/Runtime/Events.antt =====
-- crates/robot-hal-runtime/src/events.rs: numbered runtime events. The publisher keeps the events
-- that it has handed to the broadcast channel, oldest first.
use robot_hal.Prelude.{ℕ, ◌+◌, String, List, [], ◌∷◌, ◌++◌, ltb, if◌then◌else◌}
use robot_hal.Core.Names.{ResourceId, SessionId, OwnerId}
use robot_hal.Core.Lease.{u64_max}

pub data RuntimeEventKind : Type 0 where
  session_opened session_closed can_bus_active can_bus_warning can_bus_passive can_bus_off
        can_bus_stopped can_bus_unknown :
      RuntimeEventKind

abbrev event_name : RuntimeEventKind → String
event_name session_opened = "session.opened"
event_name session_closed = "session.closed"
event_name can_bus_active = "can.bus.active"
event_name can_bus_warning = "can.bus.warning"
event_name can_bus_passive = "can.bus.passive"
event_name can_bus_off = "can.bus.off"
event_name can_bus_stopped = "can.bus.stopped"
event_name can_bus_unknown = "can.bus.unknown"

pub record RuntimeEvent : Type 0 where
  pub sequence : ℕ
  pub kind : RuntimeEventKind
  pub resource_id : ResourceId
  pub session_id : SessionId
  pub owner_id : OwnerId
  pub lease_generation : ℕ

pub record EventPublisher : Type 0 where
  pub next_sequence : ℕ
  pub sent : List RuntimeEvent

-- `EventPublisher::new`
abbrev pub new_publisher : EventPublisher
new_publisher = record { next_sequence = 1; sent = [] }

-- `u64::saturating_add(1)`
abbrev saturating_succ : ℕ → ℕ
saturating_succ n = if ltb n u64_max then n + 1 else u64_max

unfoldable pub publish :
    EventPublisher → RuntimeEventKind → ResourceId → SessionId → OwnerId → ℕ → EventPublisher
publish p kind r session owner generation = record {
  next_sequence = saturating_succ p.next_sequence;
  sent =
      p.sent
      ++ (record {
        sequence = p.next_sequence;
        kind = kind;
        resource_id = r;
        session_id = session;
        owner_id = owner;
        lease_generation = generation;
      }
          ∷ []);
}
