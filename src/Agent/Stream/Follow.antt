-- ===== src/Agent/Stream/Follow.antt =====
-- Behind the replay: catching up, the queue, the waits; and every step of a stream.
use tegg.Prelude.{
  ℕ, suc, ◌≤◌, ◌≡◌, refl, ap, sym, ◌∙◌, subst, ◌⊎◌, inl, inr, Bool, true, false, List, [], ◌∷◌,
  ◌++◌, append-nil, append_assoc, some, ltb, length, length-append, length-map, element,
  element-middle, ◌&&◌, Bool-cases, arith,
}
use tegg.Store.{Json}
use tegg.Store.Lines.{is_empty}
use tegg.Store.Laws.{JsonLaws}
use tegg.Agent.Stream.{
  StreamEvent, replaying, catching_up, draining, waiting, replayed, followed, left, Stream,
  write_event, end_writer, leave, end_replay, drain, wait_or_end, loop_round, wake, has_left, Step,
  pushes, finishes, closes, reads_replay, ends_replay_file, yields_replay, ends_replay,
  reads_catch_up, ends_catch_up_file, yields_catch_up, ends_catch_up, drains, wakes,
}
use tegg.Agent.Stream.Window.{Numbered-element}
use tegg.Agent.Stream.Replay.{
  length-snoc, push-Inv, done-PhaseInv, closed-PhaseInv, moved-Inv, written-Inv, Inv-if,
  replay_line-Inv, catch_up_line-Inv, PhaseInv, Inv, Queued,
}

module _ {J : Type 0} (json : Json (StreamEvent J)) (laws : JsonLaws json) (low : ℕ) where
  end_replay-Inv :
      (es : List (StreamEvent J)) (s : Stream J) (a y : ℕ)
      → Inv json laws low es s
      → s.phase ≡ replaying a y y true
      → Inv json laws low es (end_replay json s)
  unfolding end_replay end_writer
  end_replay-Inv es s a y i h =
      Inv-if json laws low es s.done _ _
        (λ d. moved-Inv json laws low es s replayed false true s.queue i d)
        (λ d.
          moved-Inv json laws low es s (catching_up s.last_written_seq 0 0 false) true s.closed [] i
            (
              i.from_low,
              omega arith,
              omega arith,
              omega arith,
              refl,
              (length es, (es, sym (append-nil es), refl), λ f. absurd cc),
            ))

  -- What the inner loop leaves, as it drains the rest of the queue.
  pub record Drained (es : List (StreamEvent J)) (done : Bool) (s : Stream J) : Type 0 where
    pub inv : Inv json laws low es s
    pub done_kept : s.done ≡ done
    pub ends :
        (s.phase ≡ left)
        ⊎ ((s.phase ≡ draining)
            × (s.listening ≡ true)
            × (s.queue ≡ [])
            × (length es ≤ s.last_written_seq))

  drain_lem :
      (es pre queue : List (StreamEvent J)) (s : Stream J)
      → Inv json laws low es s
      → s.phase ≡ draining
      → s.listening ≡ true
      → s.queue ≡ queue
      → es ≡ pre ++ queue
      → length pre ≤ s.last_written_seq
      → Drained es s.done (drain json queue s)
  unfolding drain
  drain_lem es pre [] s i h f g q b = record {
    inv = i;
    done_kept = refl;
    ends = inr (h, f, g, rw (q, append-nil pre) b);
  }
  drain_lem es pre (e ∷ queue) s i h f g q b =
      let found : element (length pre) es ≡ some e = rw q (element-middle pre queue e) in
      let (seq, _) = Numbered-element 0 (length pre) es e i.numbered found in
      let rest : Queued json laws low (suc (length pre)) es queue = (
        pre ++ e ∷ [],
        q ∙ sym (append_assoc pre (e ∷ []) queue),
        length-snoc json laws low pre e,
      ) in
      elim (Bool-cases (ltb s.last_written_seq e.seq)) [
        | inl c ↦ elim (Bool-cases s.closed) [
          | inl d ↦
              rw (drain, c, d)
                (record {
                  inv = unfold leave in moved-Inv json laws low es s left false s.closed queue i tt;
                  done_kept = unfold leave in refl;
                  ends = inl (unfold leave in refl);
                })
          | inr d ↦
              let next : Inv json laws low es (write_event json e (record s { queue = queue })) =
                unfold write_event in
                written-Inv json laws low es s (length pre) e i found (ground arith) s.phase queue
                  (rw h (f, (suc (length pre), rest, omega (arith, seq)))) in
              rw (drain, c, d)
                (drain_lem es (pre ++ e ∷ []) queue
                  (write_event json e (record s { queue = queue })) next (unfold write_event in h)
                  (unfold write_event in f) (unfold write_event in refl) rest.1
                  (unfold write_event in omega (arith, seq, rest.2)))
        ]
        | inr c ↦
            let at_least : suc (length pre) ≤ s.last_written_seq = ground arith in
            let next : Inv json laws low es (record s { queue = queue }) =
              moved-Inv json laws low es s s.phase s.listening s.closed queue i
                (rw h (f, (suc (length pre), rest, at_least))) in
            rw (drain, c)
              (drain_lem es (pre ++ e ∷ []) queue (record s { queue = queue }) next h f refl rest.1
                (omega (arith, at_least, rest.2)))
      ]

  wait_or_end-Inv :
      (es : List (StreamEvent J)) (done : Bool) (s : Stream J)
      → Drained es done s
      → Inv json laws low es (wait_or_end json s)
  unfolding wait_or_end end_writer leave
  wait_or_end-Inv es done s k = elim k.ends [
    | inl h ↦ rw (ap (has_left json) h) k.inv
    | inr (h, f, q, b) ↦ rw (ap (has_left json) h) (
        Inv-if json laws low es s.done _ _
          (λ d. moved-Inv json laws low es s followed false true s.queue k.inv (d, b))
          (λ d.
            Inv-if json laws low es s.closed _ _
              (λ c. moved-Inv json laws low es s left false s.closed s.queue k.inv tt)
              (λ c.
                moved-Inv json laws low es s waiting s.listening s.closed s.queue k.inv (
                  f,
                  (length es, (es, sym (append-nil es) ∙ ap (λ t. es ++ t) (sym q), refl), b),
                ))))
  ]

  is_empty-nil : (queue : List (StreamEvent J)) → is_empty queue ≡ true → queue ≡ []
  is_empty-nil [] h = refl
  is_empty-nil (e ∷ queue) h = cc

  all_written :
      (es pre queue : List (StreamEvent J)) (n last : ℕ)
      → queue ≡ []
      → es ≡ pre ++ queue
      → length pre ≡ n
      → n ≤ last
      → length es ≤ last
  all_written es pre queue n last h q b c = rw (q, h, append-nil pre) (omega (arith, b, c))

  loop_round-Inv :
      (es : List (StreamEvent J)) (s : Stream J)
      → Inv json laws low es s
      → s.phase ≡ draining
      → Inv json laws low es (loop_round json s)
  unfolding loop_round end_writer
  loop_round-Inv es s i h =
      let (f, (n, (pre, q, b), c)) = subst (λ p. PhaseInv json laws low p es s) h i.at_phase in
      Inv-if json laws low es (s.done && is_empty s.queue) _ _
        (λ d. moved-Inv json laws low es s followed false true s.queue i (
          ground arith,
          all_written es pre s.queue n s.last_written_seq (is_empty-nil s.queue (ground arith)) q b
              c,
        ))
        (λ d.
          wait_or_end-Inv es s.done _
            (drain_lem es pre s.queue s i h f refl q (omega (arith, b, c))))

  wake-Inv :
      (es : List (StreamEvent J)) (heartbeat : Bool) (s : Stream J)
      → Inv json laws low es s
      → s.phase ≡ waiting
      → Inv json laws low es (wake json heartbeat s)
  unfolding wake leave
  wake-Inv es heartbeat s i h =
      Inv-if json laws low es _ _ _
        (λ c. moved-Inv json laws low es s left false s.closed s.queue i tt)
        (λ c.
          moved-Inv json laws low es s draining s.listening s.closed s.queue i
            (subst (λ p. PhaseInv json laws low p es s) h i.at_phase))

  on_file-length :
      (es : List (StreamEvent J)) (s : Stream J)
      → Inv json laws low es s
      → length s.lines ≡ length es
  on_file-length es s i = ap length i.on_file ∙ length-map json.stringify es

  pub Step-Inv :
      (es : List (StreamEvent J)) (s t : Stream J)
      → Inv json laws low es s
      → Step json s t
      → (ds : List (StreamEvent J)) × Inv json laws low ds t
  Step-Inv es s _ i (pushes type payload now h) =
      (_, push-Inv json laws low es s type payload now h i)
  Step-Inv es s _ i (finishes h) = (
    es,
    record {
      on_file = i.on_file;
      numbered = i.numbered;
      counted = i.counted;
      sent = i.sent;
      from_low = i.from_low;
      bounded = i.bounded;
      at_phase = done-PhaseInv json laws low s.phase es s i.at_phase;
    },
  )
  Step-Inv es s _ i closes = (
    es,
    moved-Inv json laws low es s s.phase s.listening true s.queue i
        (closed-PhaseInv json laws low s.phase es s i.at_phase),
  )
  Step-Inv es s _ i (reads_replay {a} {y} {l} {m} h k b) = (
    es,
    moved-Inv json laws low es s (replaying a y m false) s.listening s.closed s.queue i (
        let (b0, b1, b2, b3, b4) = subst (λ p. PhaseInv json laws low p es s) h i.at_phase in
        (b0, b1, omega arith, omega (arith, b, on_file-length es s i), b4)),
  )
  Step-Inv es s _ i (ends_replay_file {a} {y} {l} h b) = (
    es,
    moved-Inv json laws low es s (replaying a y l true) s.listening s.closed s.queue i
        (subst (λ p. PhaseInv json laws low p es s) h i.at_phase),
  )
  Step-Inv es s _ i (yields_replay {a} {y} {l} {eof} {line} h b at) =
      (es, replay_line-Inv json laws low es s a y l eof line i h b at)
  Step-Inv es s _ i (ends_replay {a} {y} h) = (es, end_replay-Inv es s a y i h)
  Step-Inv es s _ i (reads_catch_up {a} {y} {l} {m} h k b) = (
    es,
    moved-Inv json laws low es s (catching_up a y m false) s.listening s.closed s.queue i (
        let (b0, b1, b2, b3, b4, (n, q, e)) =
          subst (λ p. PhaseInv json laws low p es s) h i.at_phase in
        (b0, b1, omega arith, omega (arith, b, on_file-length es s i), b4, (n, q, λ f. absurd cc))),
  )
  Step-Inv es s _ i (ends_catch_up_file {a} {y} {l} h b) = (
    es,
    moved-Inv json laws low es s (catching_up a y l true) s.listening s.closed s.queue i (
        let (b0, b1, b2, b3, b4, (n, (pre, q, e), g)) =
          subst (λ p. PhaseInv json laws low p es s) h i.at_phase in
        (
          b0,
          b1,
          b2,
          b3,
          b4,
          (
            n,
            (pre, q, e),
            λ _.
                omega
                  (arith, b, e, on_file-length es s i, ap length q, length-append {0} pre s.queue),
          ),
        )),
  )
  Step-Inv es s _ i (yields_catch_up {a} {y} {l} {eof} {line} h b at) =
      (es, catch_up_line-Inv json laws low es s a y l eof line i h b at)
  Step-Inv es s _ i (ends_catch_up {a} {y} h) = (
    es,
    moved-Inv json laws low es s draining s.listening s.closed s.queue i (
        let (b0, b1, b2, b3, b4, (n, q, g)) =
          subst (λ p. PhaseInv json laws low p es s) h i.at_phase in
        (b4, (n, q, omega (arith, b0, b1, g refl)))),
  )
  Step-Inv es s _ i (drains h) = (es, loop_round-Inv es s i h)
  Step-Inv es s _ i (wakes heartbeat h) = (es, wake-Inv es heartbeat s i h)
