-- ===== src/EventBus.antt =====
-- core/eventbus-runtime/src/SingletonEventBus.ts: events held back under a cork and sent when it is
-- taken out. `C` is the type of contexts, `A` that of arguments. The handlers run outside of the bus:
-- `emitted` is the sequence of `doEmitWithContext` calls.
pub mod Cork
pub mod Tests
use tegg.Prelude.{
  ℕ, ◌+◌, ◌-◌, String, Bool, true, false, List, [], ◌∷◌, ◌++◌, Option, none, some, Result, ok, err,
  if◌then◌else◌, ◌==◌, nat_key, string_key,
}
use tegg.Prelude.JsMap.{JsMap, get, set, delete}

pub record Event (C A : Type 0) : Type 0 where
  pub name : String
  pub args : A
  pub context : Option C

pub record CorkEvents (C A : Type 0) : Type 0 where
  pub times : ℕ
  pub events : List (Event C A)

-- `generateCorkId` prints the number; the printing is a parameter of it.
pub record EventBus (C A : Type 0) : Type 0 where
  pub cork_id_sequence : ℕ
  pub corked_events : JsMap String (CorkEvents C A)
  pub emitted : List (Event C A)

pub data BusError : Type 0 where
  cork_not_found : String → BusError

module _ {C A : Type 0} where
  unfoldable pub generate_cork_id : (ℕ → String) → EventBus C A → EventBus C A × String
  generate_cork_id print bus =
      (record bus { cork_id_sequence = bus.cork_id_sequence + 1 }, print (bus.cork_id_sequence + 1))

  abbrev pub corked : Option (CorkEvents C A) → CorkEvents C A
  corked none = record { times = 0; events = [] }
  corked (some c) = c

  unfoldable pub cork : String → EventBus C A → EventBus C A
  cork cork_id bus =
      let c = corked (get cork_id bus.corked_events) in
      record bus {
        corked_events = set cork_id (record c { times = c.times + 1 }) bus.corked_events;
      }

  -- The events that have a context, sent one after the other.
  unfoldable pub send_all : List (Event C A) → EventBus C A → EventBus C A
  send_all [] bus = bus
  send_all (e ∷ es) bus = elim e.context [
    | none ↦ send_all es bus
    | some _ ↦ send_all es (record bus { emitted = bus.emitted ++ e ∷ [] })
  ]

  -- A cork in the map was put in at least once, so that the count reaches zero from one.
  unfoldable pub uncork : String → EventBus C A → Result BusError (EventBus C A × Bool)
  unfolding send_all
  uncork cork_id bus = elim (get cork_id bus.corked_events) [
    | none ↦ err (cork_not_found cork_id)
    | some c ↦
        if c.times == 1
        then ok (
          send_all c.events (record bus { corked_events = delete cork_id bus.corked_events }),
          true,
        )
        else ok (
          record bus {
            corked_events = set cork_id (record c { times = c.times - 1 }) bus.corked_events;
          },
          false,
        )
  ]

  unfoldable pub queue_event : String → Event C A → EventBus C A → Result BusError (EventBus C A)
  queue_event cork_id event bus = elim (get cork_id bus.corked_events) [
    | none ↦ err (cork_not_found cork_id)
    | some c ↦ ok (record bus {
      corked_events = set cork_id (record c { events = c.events ++ event ∷ [] }) bus.corked_events;
    })
  ]

  -- The context's cork, if it has one that is not the empty text, holds the event back. The answer of
  -- `hasListeners` is left out.
  unfoldable pub emit_with_context :
      (C → Option String) → C → String → A → EventBus C A → Result BusError (EventBus C A)
  unfolding queue_event
  emit_with_context cork_id_of parent name args bus =
      let event : Event C A = record { name = name; args = args; context = some parent } in
      elim (cork_id_of parent) [
        | none ↦ ok (record bus { emitted = bus.emitted ++ event ∷ [] })
        | some cork_id ↦
            if cork_id == ""
            then ok (record bus { emitted = bus.emitted ++ event ∷ [] })
            else queue_event cork_id event bus
      ]
