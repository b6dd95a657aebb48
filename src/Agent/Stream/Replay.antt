-- ===== src/Agent/Stream/Replay.antt =====
-- How far a client has been given its events, at each point of a stream; what the events of the run
-- and the lines of the file do to it.
use tegg.Prelude.{
  ℕ, zero, suc, ◌+◌, ◌-◌, ◌≤◌, ◌<◌, ◌≡◌, refl, ap, sym, ◌∙◌, subst, ◌⊎◌, inl, String, Bool, true,
  false, List, [], ◌∷◌, ◌++◌, append_assoc, map, map-append, some, if◌then◌else◌, not, ltb, length,
  length-append, element, arith,
}
use tegg.Store.{Json}
use tegg.Store.Lines.{Text}
use tegg.Store.Laws.{JsonLaws}
use tegg.Agent.Stream.{
  StreamEvent, Phase, replaying, catching_up, draining, waiting, replayed, followed, left, Stream,
  push_event, write_event, leave, replay_line, catch_up_line, parse_line,
}
use tegg.Agent.Stream.Window.{
  Numbered, window, Numbered-append, Numbered-element, window_next, window_push,
}

module _ {J : Type 0} (json : Json (StreamEvent J)) (laws : JsonLaws json) (low : ℕ) where
  -- The queue holds the events from a number on.
  abbrev pub Queued : ℕ → List (StreamEvent J) → List (StreamEvent J) → Type 0
  Queued n events queue = (pre : List (StreamEvent J)) × (events ≡ pre ++ queue) × (length pre ≡ n)

  -- How far the events are written at each point.
  abbrev pub PhaseInv : Phase → List (StreamEvent J) → Stream J → Type 0
  PhaseInv (replaying a y l eof) es s =
      (a ≡ low)
      × (s.last_written_seq ≡ a + (y - a))
      × (y ≤ l)
      × (l ≤ length es)
      × (s.listening ≡ false)
  PhaseInv (catching_up a y l eof) es s =
      (low ≤ a)
      × (s.last_written_seq ≡ a + (y - a))
      × (y ≤ l)
      × (l ≤ length es)
      × (s.listening ≡ true)
      × ((n : ℕ) × Queued n es s.queue × (eof ≡ true → n ≤ l))
  PhaseInv draining es s =
      (s.listening ≡ true) × ((n : ℕ) × Queued n es s.queue × (n ≤ s.last_written_seq))
  PhaseInv waiting es s =
      (s.listening ≡ true) × ((n : ℕ) × Queued n es s.queue × (n ≤ s.last_written_seq))
  PhaseInv followed es s = (s.done ≡ true) × (length es ≤ s.last_written_seq)
  PhaseInv replayed es s = s.done ≡ true
  PhaseInv left es s = Unit

  pub record Inv (es : List (StreamEvent J)) (s : Stream J) : Type 0 where
    pub on_file : s.lines ≡ map json.stringify es
    pub numbered : Numbered 0 es
    pub counted : s.last_seq ≡ length es
    pub sent : s.written ≡ window low s.last_written_seq es
    pub from_low : low ≤ s.last_written_seq
    pub bounded : (s.last_written_seq ≤ length es) ⊎ (s.last_written_seq ≡ low)
    pub at_phase : PhaseInv s.phase es s

  -- Writing the next event.
  write-sent :
      (es : List (StreamEvent J)) (s : Stream J) (i : ℕ) (e : StreamEvent J)
      → Numbered 0 es
      → s.written ≡ window low s.last_written_seq es
      → low ≤ s.last_written_seq
      → element i es ≡ some e
      → s.last_written_seq ≡ i
      → (s.written ++ e ∷ [] ≡ window low e.seq es) × (e.seq ≡ suc i) × (suc i ≤ length es)
  write-sent es s i e k w l h b =
      let (place, below) = Numbered-element 0 i es e k h in
      let seq : e.seq ≡ suc i = omega (arith, place) in
      (
        ap (λ t. t ++ e ∷ []) (w ∙ ap (λ m. window low m es) b)
            ∙ sym (window_next 0 i low i es e k h (omega arith) (omega (arith, l, b)))
            ∙ ap (λ m. window low m es) (sym seq),
        seq,
        omega (arith, below),
      )

  Queued-push :
      (n : ℕ) (es queue : List (StreamEvent J)) (e : StreamEvent J) (listening : Bool)
      → listening ≡ true
      → Queued n es queue
      → Queued n (es ++ e ∷ []) (if listening then queue ++ e ∷ [] else queue)
  Queued-push n es queue e true h (pre, q, b) =
      (pre, ap (λ t. t ++ e ∷ []) q ∙ append_assoc pre queue (e ∷ []), b)
  Queued-push n es queue e false h k = cc

  pub length-snoc :
      (es : List (StreamEvent J)) (e : StreamEvent J) → length (es ++ e ∷ []) ≡ suc (length es)
  length-snoc es e = omega (arith, length-append {0} es (e ∷ []))

  push-PhaseInv :
      (p : Phase) (es : List (StreamEvent J)) (s : Stream J) (type : String) (payload : J) (now : ℕ)
      → s.done ≡ false
      → PhaseInv p es s
      → PhaseInv p
          (es ++ record { seq = suc s.last_seq; type = type; payload = payload; ts = now } ∷ [])
          (push_event json type payload now s)
  unfolding push_event
  push-PhaseInv (replaying a y l eof) es s type payload now h k = ground (
    arith,
    k,
    length-snoc es (record { seq = suc s.last_seq; type = type; payload = payload; ts = now }),
  )
  push-PhaseInv (catching_up a y l eof) es s type payload now h (b, c, d, e, f, (n, q, g)) = (
    b,
    c,
    d,
    omega (
      arith,
      e,
      length-snoc es (record { seq = suc s.last_seq; type = type; payload = payload; ts = now }),
    ),
    f,
    (n, Queued-push n es s.queue _ s.listening f q, g),
  )
  push-PhaseInv draining es s type payload now h (f, (n, q, g)) =
      (f, (n, Queued-push n es s.queue _ s.listening f q, g))
  push-PhaseInv waiting es s type payload now h (f, (n, q, g)) =
      (f, (n, Queued-push n es s.queue _ s.listening f q, g))
  push-PhaseInv followed es s type payload now h (d, k) = cc
  push-PhaseInv replayed es s type payload now h k = cc
  push-PhaseInv left es s type payload now h k = tt

  pub push-Inv :
      (es : List (StreamEvent J)) (s : Stream J) (type : String) (payload : J) (now : ℕ)
      → s.done ≡ false
      → Inv es s
      → Inv
          (es ++ record { seq = suc s.last_seq; type = type; payload = payload; ts = now } ∷ [])
          (push_event json type payload now s)
  unfolding push_event
  push-Inv es s type payload now h i =
      let e : StreamEvent J = record {
        seq = suc s.last_seq;
        type = type;
        payload = payload;
        ts = now;
      } in
      record {
        on_file =
            ap (λ t. t ++ json.stringify e ∷ []) i.on_file
            ∙ sym (map-append json.stringify es (e ∷ []));
        numbered = Numbered-append 0 es e i.numbered (omega (arith, i.counted));
        counted = omega (arith, i.counted, length-snoc es e);
        sent =
            i.sent
            ∙ sym (window_push low s.last_written_seq es e (ground (arith, i.counted, i.bounded)));
        from_low = i.from_low;
        bounded = ground (arith, i.bounded, length-snoc es e);
        at_phase = push-PhaseInv s.phase es s type payload now h i.at_phase;
      }

  pub done-PhaseInv :
      (p : Phase) (es : List (StreamEvent J)) (s : Stream J)
      → PhaseInv p es s
      → PhaseInv p es (record s { done = true })
  done-PhaseInv (replaying a y l eof) es s k = k
  done-PhaseInv (catching_up a y l eof) es s k = k
  done-PhaseInv draining es s k = k
  done-PhaseInv waiting es s k = k
  done-PhaseInv followed es s k = (refl, k.1)
  done-PhaseInv replayed es s k = refl
  done-PhaseInv left es s k = tt

  pub closed-PhaseInv :
      (p : Phase) (es : List (StreamEvent J)) (s : Stream J)
      → PhaseInv p es s
      → PhaseInv p es (record s { closed = true })
  closed-PhaseInv (replaying a y l eof) es s k = k
  closed-PhaseInv (catching_up a y l eof) es s k = k
  closed-PhaseInv draining es s k = k
  closed-PhaseInv waiting es s k = k
  closed-PhaseInv followed es s k = k
  closed-PhaseInv replayed es s k = k
  closed-PhaseInv left es s k = tt

  -- A step that changes the phase alone, or the phase, the listening and the queue.
  pub moved-Inv :
      (es : List (StreamEvent J)) (s : Stream J) (p : Phase) (listening closed : Bool)
      (queue : List (StreamEvent J))
      → Inv es s
      → PhaseInv p es
          (record s { phase = p; listening = listening; closed = closed; queue = queue })
      → Inv es (record s { phase = p; listening = listening; closed = closed; queue = queue })
  moved-Inv es s p listening closed queue i k = record {
    on_file = i.on_file;
    numbered = i.numbered;
    counted = i.counted;
    sent = i.sent;
    from_low = i.from_low;
    bounded = i.bounded;
    at_phase = k;
  }

  -- What a reader finds on a line that stands on the file.
  line-parsed :
      (es : List (StreamEvent J)) (y : ℕ) (line : Text)
      → element y (map json.stringify es) ≡ some line
      → (e : StreamEvent J) × (element y es ≡ some e) × (json.parse line ≡ some e)
  line-parsed [] y line h = cc
  line-parsed (e ∷ es) zero line h = (e, refl, ground (arith, laws.parse_stringify e))
  line-parsed (e ∷ es) (suc y) line h = line-parsed es y line h

  pub written-Inv :
      (es : List (StreamEvent J)) (s : Stream J) (i : ℕ) (e : StreamEvent J)
      → Inv es s
      → element i es ≡ some e
      → s.last_written_seq ≡ i
      → (p : Phase) (queue : List (StreamEvent J))
      → PhaseInv p es (record s {
        phase = p;
        written = s.written ++ e ∷ [];
        last_written_seq = e.seq;
        queue = queue;
      })
      → Inv es (record s {
        phase = p;
        written = s.written ++ e ∷ [];
        last_written_seq = e.seq;
        queue = queue;
      })
  written-Inv es s i e inv h b p queue k =
      let (w, seq, below) = write-sent es s i e inv.numbered inv.sent inv.from_low h b in
      record {
        on_file = inv.on_file;
        numbered = inv.numbered;
        counted = inv.counted;
        sent = w;
        from_low = omega (arith, inv.from_low, seq, b);
        bounded = inl (omega (arith, seq, below));
        at_phase = k;
      }

  pub Inv-if :
      (es : List (StreamEvent J)) (b : Bool) (x y : Stream J)
      → (b ≡ true → Inv es x)
      → (b ≡ false → Inv es y)
      → Inv es (if b then x else y)
  Inv-if es true x y h k = h refl
  Inv-if es false x y h k = k refl

  leave-Inv : (es : List (StreamEvent J)) (s : Stream J) → Inv es s → Inv es (leave json s)
  unfolding leave
  leave-Inv es s i = moved-Inv es s left false s.closed s.queue i tt

  pub replay_line-Inv :
      (es : List (StreamEvent J)) (s : Stream J) (a y l : ℕ) (eof : Bool) (line : Text)
      → Inv es s
      → s.phase ≡ replaying a y l eof
      → y < l
      → element y s.lines ≡ some line
      → Inv es (
          replay_line json a
            (parse_line json line)
            (record s { phase = replaying a (suc y) l eof }))
  unfolding replay_line write_event
  replay_line-Inv es s a y l eof line i h below at =
      let (e, found, parsed) =
        line-parsed es y line (subst (λ t. element y t ≡ some line) i.on_file at) in
      let (seq, _) = Numbered-element 0 y es e i.numbered found in
      let k = subst (λ p. PhaseInv p es s) h i.at_phase in
      rw (parsed, replay_line)
        (Inv-if es (not (ltb a e.seq)) _ _
          (λ b.
            moved-Inv es s (replaying a (suc y) l eof) s.listening s.closed s.queue i
              (ground (arith, seq, k)))
          (λ b.
            let at_y : s.last_written_seq ≡ y = ground (arith, seq, k) in
            Inv-if es s.closed _ _
              (λ c. unfold leave in moved-Inv es s left false s.closed s.queue i tt)
              (λ c.
                written-Inv es s y e i found at_y (replaying a (suc y) l eof) s.queue
                  (ground (arith, seq, k)))))

  pub catch_up_line-Inv :
      (es : List (StreamEvent J)) (s : Stream J) (a y l : ℕ) (eof : Bool) (line : Text)
      → Inv es s
      → s.phase ≡ catching_up a y l eof
      → y < l
      → element y s.lines ≡ some line
      → Inv es (
          catch_up_line json a
            (parse_line json line)
            (record s { phase = catching_up a (suc y) l eof }))
  unfolding catch_up_line write_event
  catch_up_line-Inv es s a y l eof line i h below at =
      let (e, found, parsed) =
        line-parsed es y line (subst (λ t. element y t ≡ some line) i.on_file at) in
      let (seq, _) = Numbered-element 0 y es e i.numbered found in
      let (b0, at_lw, b2, b3, listens, queued) = subst (λ p. PhaseInv p es s) h i.at_phase in
      rw (parsed, catch_up_line)
        (Inv-if es (not (ltb a e.seq)) _ _
          (λ b.
            moved-Inv es s (catching_up a (suc y) l eof) s.listening s.closed s.queue i
              (b0, ground arith, omega arith, b3, listens, queued))
          (λ b.
            let at_y : s.last_written_seq ≡ y = ground arith in
            Inv-if es s.closed _ _
              (λ c. unfold leave in moved-Inv es s left false s.closed s.queue i tt)
              (λ c.
                Inv-if es (ltb s.last_written_seq e.seq) _ _
                  (λ d.
                    written-Inv es s y e i found at_y (catching_up a (suc y) l eof) s.queue
                      (b0, ground arith, omega arith, b3, listens, queued))
                  (λ d. absurd (ground arith)))))
