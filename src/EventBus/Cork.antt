-- ===== src/EventBus/Cork.antt =====
-- Corked events are all sent, once and in order, by the uncork that matches the first cork.
use tegg.Prelude.{
  ℕ, ◌+◌, ◌-◌, ◌≡◌, refl, sym, ap, ◌∙◌, inl, inr, subst, String, Bool, true, false, List, [], ◌∷◌,
  ◌++◌, append_assoc, append-nil, Option, none, some, Result, ok, err, if◌then◌else◌, ◌==◌, nat_key,
  string_key, leb, arith, eq_iff, Bool-cases,
}
use tegg.Prelude.JsMap.{get, set, delete, get-set, get-delete}
use tegg.EventBus.{
  Event, CorkEvents, EventBus, BusError, cork, uncork, send_all, queue_event, emit_with_context,
}

pub data Call (A : Type 0) : Type 0 where
  cork_call uncork_call : Call A
  emit_call : String → A → Call A

-- The depth of corks after the calls, as long as it stays above zero.
unfoldable pub depth : {A : Type 0} → ℕ → List (Call A) → Option ℕ
depth d [] = some d
depth d (cork_call ∷ cs) = depth (d + 1) cs
depth d (uncork_call ∷ cs) = let rest = depth (d - 1) cs in if leb d 1 then none else rest
depth d (emit_call name args ∷ cs) = depth d cs

module _ {C A : Type 0} (cork_id_of : C → Option String) (parent : C) (id : String) where
  unfoldable pub emits : List (Call A) → List (Event C A)
  emits [] = []
  emits (cork_call ∷ cs) = emits cs
  emits (uncork_call ∷ cs) = emits cs
  emits (emit_call name args ∷ cs) =
      record { name = name; args = args; context = some parent } ∷ emits cs

  abbrev dropped : Result BusError (EventBus C A × Bool) → Result BusError (EventBus C A)
  dropped (ok (bus, b)) = ok bus
  dropped (err e) = err e

  unfoldable pub call : Call A → EventBus C A → Result BusError (EventBus C A)
  unfolding cork uncork emit_with_context
  call cork_call bus = ok (cork id bus)
  call uncork_call bus = dropped (uncork id bus)
  call (emit_call name args) bus = emit_with_context cork_id_of parent name args bus

  unfoldable pub run : List (Call A) → EventBus C A → Result BusError (EventBus C A)
  unfolding call
  run [] bus = ok bus
  run (c ∷ cs) bus = elim (call c bus) [ err e ↦ err e | ok next ↦ run cs next ]

  -- The cork is in, this many times, and holds these events; those have been sent.
  record Holds (times : ℕ) (events sent : List (Event C A)) (bus : EventBus C A) : Type 0 where
    held : get id bus.corked_events ≡ some (record { times = times; events = events })
    sent_so_far : bus.emitted ≡ sent

  Holds-cork :
      (d : ℕ) (es sent : List (Event C A)) (bus : EventBus C A)
      → Holds d es sent bus
      → Holds (d + 1) es sent (cork id bus)
  unfolding cork
  Holds-cork d es sent bus h = record {
    held = ground (
      arith,
      h.held,
      eq_iff id id,
      get-set id id (record { times = d + 1; events = es }) bus.corked_events,
    );
    sent_so_far = h.sent_so_far;
  }

  Holds-uncork :
      (d : ℕ) (es sent : List (Event C A)) (bus : EventBus C A)
      → Holds d es sent bus
      → leb d 1 ≡ false
      → (next : EventBus C A) × (call uncork_call bus ≡ ok next) × Holds (d - 1) es sent next
  unfolding call uncork
  Holds-uncork d es sent bus h deep =
      let c : CorkEvents C A = record { times = d - 1; events = es } in
      let next : EventBus C A = record bus { corked_events = set id c bus.corked_events } in
      (
        next,
        ground (arith, h.held),
        record {
          held = ground (arith, eq_iff id id, get-set id id c bus.corked_events);
          sent_so_far = h.sent_so_far;
        },
      )

  Holds-emit :
      (d : ℕ) (es sent : List (Event C A)) (bus : EventBus C A) (name : String) (args : A)
      → Holds d es sent bus
      → cork_id_of parent ≡ some id
      → (id == "") ≡ false
      → (next : EventBus C A) × (call (emit_call name args) bus ≡ ok next)
        × Holds d (es ++ record { name = name; args = args; context = some parent } ∷ []) sent next
  unfolding call emit_with_context queue_event
  Holds-emit d es sent bus name args h own filled =
      let e : Event C A = record { name = name; args = args; context = some parent } in
      let c : CorkEvents C A = record { times = d; events = es ++ e ∷ [] } in
      let next : EventBus C A = record bus { corked_events = set id c bus.corked_events } in
      (
        next,
        ground (arith, h.held, own, filled),
        record {
          held = ground (arith, eq_iff id id, get-set id id c bus.corked_events);
          sent_so_far = h.sent_so_far;
        },
      )

  run-cons :
      (c : Call A) (cs : List (Call A)) (bus next last : EventBus C A)
      → call c bus ≡ ok next
      → run cs next ≡ ok last
      → run (c ∷ cs) bus ≡ ok last
  unfolding run
  run-cons c cs bus next last h k = ground (arith, h, k)

  run-Holds :
      (cs : List (Call A)) (d last_depth : ℕ) (es sent : List (Event C A)) (bus : EventBus C A)
      → cork_id_of parent ≡ some id
      → (id == "") ≡ false
      → depth d cs ≡ some last_depth
      → Holds d es sent bus
      → (last : EventBus C A) × (run cs bus ≡ ok last) × Holds last_depth (es ++ emits cs) sent last
  unfolding run depth emits
  run-Holds [] d n es sent bus own filled deep h =
      (bus, refl, rw (append-nil es) (subst (λ k. Holds k es sent bus) (ground arith) h))
  run-Holds (cork_call ∷ cs) d n es sent bus own filled deep h =
      let (last, ran, holds) =
        run-Holds cs (d + 1) n es sent (cork id bus) own filled deep (Holds-cork d es sent bus h) in
      (last, run-cons cork_call cs bus (cork id bus) last (unfold call in refl) ran, holds)
  run-Holds (uncork_call ∷ cs) d n es sent bus own filled deep h = elim (Bool-cases (leb d 1)) [
    | inl shallow ↦ absurd (ground arith)
    | inr above ↦
        let (next, here, kept) = Holds-uncork d es sent bus h above in
        let (last, ran, holds) =
          run-Holds cs (d - 1) n es sent next own filled (ground arith) kept in
        (last, run-cons uncork_call cs bus next last here ran, holds)
  ]
  run-Holds (emit_call name args ∷ cs) d n es sent bus own filled deep h =
      let e : Event C A = record { name = name; args = args; context = some parent } in
      let (next, here, kept) = Holds-emit d es sent bus name args h own filled in
      let (last, ran, holds) = run-Holds cs d n (es ++ e ∷ []) sent next own filled deep kept in
      (
        last,
        run-cons (emit_call name args) cs bus next last here ran,
        rw⁻¹ (append_assoc es (e ∷ []) (emits cs)) holds,
      )

  emitted-send_all :
      (cs : List (Call A)) (bus : EventBus C A)
      → (send_all (emits cs) bus).emitted ≡ bus.emitted ++ emits cs
  unfolding send_all emits
  emitted-send_all [] bus = sym (append-nil bus.emitted)
  emitted-send_all (cork_call ∷ cs) bus = emitted-send_all cs bus
  emitted-send_all (uncork_call ∷ cs) bus = emitted-send_all cs bus
  emitted-send_all (emit_call name args ∷ cs) bus =
      let e : Event C A = record { name = name; args = args; context = some parent } in
      emitted-send_all cs (record bus { emitted = bus.emitted ++ e ∷ [] })
      ∙ append_assoc bus.emitted (e ∷ []) (emits cs)

  corked-send_all :
      (es : List (Event C A)) (bus : EventBus C A)
      → (send_all es bus).corked_events ≡ bus.corked_events
  unfolding send_all
  corked-send_all [] bus = refl
  corked-send_all (e ∷ es) bus = ground (
    arith,
    corked-send_all es bus,
    corked-send_all es (record bus { emitted = bus.emitted ++ e ∷ [] }),
  )

  Holds-start :
      (bus : EventBus C A) → get id bus.corked_events ≡ none → Holds 1 [] bus.emitted (cork id bus)
  unfolding cork
  Holds-start bus free = record {
    held = ground (
      arith,
      free,
      eq_iff id id,
      get-set id id (record { times = 1; events = [] }) bus.corked_events,
    );
    sent_so_far = refl;
  }

  uncork-eq :
      (es sent : List (Event C A)) (bus : EventBus C A)
      → Holds 1 es sent bus
      → uncork id bus
        ≡ ok (send_all es (record bus { corked_events = delete id bus.corked_events }), true)
  unfolding uncork
  uncork-eq es sent bus h = ground (arith, h.held)

  -- From a bus without this cork, under a context that carries its non-empty id: corking, then corks,
  -- uncorks and emits whose depth stays above zero and ends where it began, throw nothing and send
  -- nothing; the uncork that matches the first cork then sends all of the events, once and in the order
  -- of the emits, and leaves no cork behind.
  pub cork_delivers :
      (cs : List (Call A)) (bus : EventBus C A)
      → cork_id_of parent ≡ some id
      → (id == "") ≡ false
      → get id bus.corked_events ≡ none
      → depth 1 cs ≡ some 1
      → (waiting last : EventBus C A) × (run (cork_call ∷ cs) bus ≡ ok waiting)
        × (waiting.emitted ≡ bus.emitted)
        × (uncork id waiting ≡ ok (last, true))
        × (last.emitted ≡ bus.emitted ++ emits cs)
        × (get id last.corked_events ≡ none)
  cork_delivers cs bus own filled free level =
      let (waiting, ran, h) =
        run-Holds cs 1 1 [] bus.emitted (cork id bus) own filled level (Holds-start bus free) in
      let out : EventBus C A = record waiting { corked_events = delete id waiting.corked_events } in
      (
        waiting,
        send_all (emits cs) out,
        run-cons cork_call cs bus (cork id bus) waiting (unfold call in refl) ran,
        h.sent_so_far,
        uncork-eq (emits cs) bus.emitted waiting h,
        emitted-send_all cs out ∙ ap (λ z. z ++ emits cs) h.sent_so_far,
        ap (get id) (corked-send_all (emits cs) out)
            ∙ ground (arith, get-delete id id waiting.corked_events, eq_iff id id),
      )
