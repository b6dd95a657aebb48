-- ===== src/Agent/Stream/Clients.antt =====
-- What a client of a run's stream is given.
use tegg.Prelude.{
  ℕ, ◌≡◌, refl, ap, sym, ◌∙◌, List, [], ◌∷◌, ◌++◌, append-nil, map, inr, subst, arith,
}
use tegg.Store.{Json}
use tegg.Store.Laws.{JsonLaws}
use tegg.Agent.Stream.{StreamEvent, followed, Stream, Reach, here, later, decode, opened}
use tegg.Agent.Stream.Window.{window, above, above-window, above_end}
use tegg.Agent.Stream.Replay.{Inv, PhaseInv}
use tegg.Agent.Stream.Follow.{Step-Inv}

module _ {J : Type 0} (json : Json (StreamEvent J)) (laws : JsonLaws json) (low : ℕ) where
  Reach-Inv :
      {s : Stream J}
      → Reach json (opened json low) s
      → (es : List (StreamEvent J)) × Inv json laws low es s
  Reach-Inv here = (
    [],
    record {
      on_file = refl;
      numbered = tt;
      counted = refl;
      sent = refl;
      from_low = omega arith;
      bounded = inr refl;
      at_phase = (refl, omega arith, omega arith, omega arith, refl);
    },
  )
  Reach-Inv (later {s} {t} r step) =
      let (es, i) = Reach-Inv r in Step-Inv json laws low es s t i step

  decode-stringify : (es : List (StreamEvent J)) → decode json (map json.stringify es) ≡ es
  unfolding decode
  decode-stringify [] = refl
  decode-stringify (e ∷ es) = rw (decode, laws.parse_stringify e) (ap (◌∷◌ e) (decode-stringify es))

  -- In every state that a stream reaches, whatever events, ends, closings and waits came between its
  -- steps, the client has been given a beginning of the file's events above its last number: none
  -- twice, none out of order and none left out between two.
  pub stream_prefix :
      {s : Stream J}
      → Reach json (opened json low) s
      → (rest : List (StreamEvent J)) × (above low (decode json s.lines) ≡ s.written ++ rest)
  stream_prefix {s} r =
      let (es, i) = Reach-Inv r in
      (
        above s.last_written_seq es,
        ap (λ t. above low (decode json t)) i.on_file
            ∙ ap (above low) (decode-stringify es)
            ∙ above-window 0 low s.last_written_seq es i.from_low i.numbered
            ∙ ap (λ t. t ++ above s.last_written_seq es) (sym i.sent),
      )

  -- A client that followed the run to its end has been given every event of the file above its last
  -- number, also those that came while it was replaying or catching up.
  pub stream_complete :
      {s : Stream J}
      → Reach json (opened json low) s
      → s.phase ≡ followed
      → s.written ≡ above low (decode json s.lines)
  stream_complete {s} r h =
      let (es, i) = Reach-Inv r in
      let (_, all) = subst (λ p. PhaseInv json laws low p es s) h i.at_phase in
      sym (
        ap (λ t. above low (decode json t)) i.on_file
        ∙ ap (above low) (decode-stringify es)
        ∙ above-window 0 low s.last_written_seq es i.from_low i.numbered
        ∙ ap (λ t. window low s.last_written_seq es ++ t)
            (above_end 0 s.last_written_seq es i.numbered (omega (arith, all)))
        ∙ append-nil (window low s.last_written_seq es)
        ∙ sym i.sent)
