-- ===== src/EventBus/Tests.antt =====
-- One bus, one cork, and the theorem at them.
use tegg.Prelude.{
  ℕ, ◌≡◌, refl, String, true, List, [], ◌∷◌, ◌++◌, Option, none, some, ok, string_key,
}
use tegg.Prelude.JsMap.{get}
use tegg.EventBus.{EventBus, uncork}
use tegg.EventBus.Cork.{Call, cork_call, uncork_call, emit_call, depth, emits, run, cork_delivers}

abbrev cork_id_of : String → Option String
cork_id_of context = some context

abbrev bus : EventBus String ℕ
bus = record { cork_id_sequence = 1; corked_events = []; emitted = [] }

abbrev calls : List (Call ℕ)
calls = emit_call "created" 1 ∷ cork_call ∷ emit_call "updated" 2 ∷ uncork_call ∷ []

level : depth 1 calls ≡ some 1
unfolding depth
level = refl

free : get "1" bus.corked_events ≡ none
unfolding get
free = refl

cork_delivers_example :
    (waiting last : EventBus String ℕ) × (run cork_id_of "1" "1" (cork_call ∷ calls) bus
      ≡ ok waiting)
    × (waiting.emitted ≡ [])
    × (uncork "1" waiting ≡ ok (last, true))
    × (last.emitted ≡ [] ++ emits cork_id_of "1" "1" calls)
    × (get "1" last.corked_events ≡ none)
cork_delivers_example = cork_delivers cork_id_of "1" "1" calls bus refl refl free level
