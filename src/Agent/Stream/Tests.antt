-- ===== src/Agent/Stream/Tests.antt =====
-- A run with three events: one before a client comes with the last number 0, one while it catches
-- up, one while it waits. Then a run whose client does not get its event.
use tegg.Prelude.{ℕ, ◌≡◌, refl, Bool, true, false, List, [], ◌∷◌, subst, arith}
use tegg.Store.{Json}
use tegg.Store.Laws.{JsonLaws}
use tegg.Store.Tests.Codec.{Codec, nat_codec, string_codec, pair_codec, iso_codec}
use tegg.Store.Tests.Records.{json_of, json_of-JsonLaws}
use tegg.Agent.Stream.{
  StreamEvent, Stream, Step, Reach, here, later, push_event, replay_line, end_replay, catch_up_line,
  loop_round, wake, decode, opened, pushes, finishes, reads_replay, ends_replay_file, yields_replay,
  ends_replay, reads_catch_up, ends_catch_up_file, yields_catch_up, ends_catch_up, drains, wakes,
  replaying, catching_up, draining, followed, waiting, replayed, Phase,
}
use tegg.Agent.Stream.Window.{above}
use tegg.Agent.Stream.Clients.{stream_prefix, stream_complete}

event_codec : Codec (StreamEvent ℕ)
event_codec =
    iso_codec (pair_codec nat_codec (pair_codec string_codec (pair_codec nat_codec nat_codec)))
      (λ e. (e.seq, (e.type, (e.payload, e.ts))))
      (λ p. record { seq = p.0; type = p.1.0; payload = p.1.1.0; ts = p.1.1.1 }) (λ e. refl)

abbrev json : Json (StreamEvent ℕ)
json = json_of event_codec

json-JsonLaws : JsonLaws json
json-JsonLaws = json_of-JsonLaws event_codec

abbrev event : ℕ → StreamEvent ℕ
event n = record { seq = n; type = "delta"; payload = n; ts = 7 }

abbrev replay_state : ℕ → ℕ → Bool → List (StreamEvent ℕ) → ℕ → Stream ℕ
replay_state y l eof written last = record {
  lines = json.stringify (event 1) ∷ [];
  last_seq = 1;
  done = false;
  closed = false;
  written = written;
  phase = replaying 0 y l eof;
  last_written_seq = last;
  listening = false;
  queue = [];
}

abbrev two_state : Phase → List (StreamEvent ℕ) → ℕ → Stream ℕ
two_state phase written last = record {
  lines = json.stringify (event 1) ∷ json.stringify (event 2) ∷ [];
  last_seq = 2;
  done = false;
  closed = false;
  written = written;
  phase = phase;
  last_written_seq = last;
  listening = true;
  queue = event 2 ∷ [];
}

abbrev waiting_state : Stream ℕ
waiting_state = record (two_state waiting (event 1 ∷ event 2 ∷ []) 2) { queue = [] }

abbrev end_state : Stream ℕ
end_state = record {
  lines = json.stringify (event 1) ∷ json.stringify (event 2) ∷ json.stringify (event 3) ∷ [];
  last_seq = 3;
  done = true;
  closed = true;
  written = event 1 ∷ event 2 ∷ event 3 ∷ [];
  phase = followed;
  last_written_seq = 3;
  listening = false;
  queue = [];
}

replays : Reach json (opened json 0) (replay_state 1 1 true (event 1 ∷ []) 1)
unfolding push_event replay_line
replays =
    let read : Reach json (opened json 0) (replay_state 0 1 false [] 0) =
      later (later here (pushes "delta" 1 7 refl))
        (reads_replay refl (omega arith) (omega arith)) in
    let line : Step json (replay_state 0 1 false [] 0) (replay_state 1 1 false (event 1 ∷ []) 1) =
      subst
        (λ p.
          Step json (replay_state 0 1 false [] 0)
            (replay_line json 0 p (replay_state 1 1 false [] 0)))
        (json-JsonLaws.parse_stringify (event 1)) (yields_replay refl (omega arith) refl) in
    later (later read line) (ends_replay_file refl refl)

catches_up : Reach json (opened json 0) (two_state draining (event 1 ∷ event 2 ∷ []) 2)
unfolding push_event catch_up_line end_replay
catches_up =
    let read : Reach json (opened json 0) (two_state (catching_up 1 0 2 false) (event 1 ∷ []) 1) =
      later (later (later replays (ends_replay refl)) (pushes "delta" 2 7 refl))
        (reads_catch_up refl (omega arith) (omega arith)) in
    let old : Step json (two_state (catching_up 1 0 2 false) (event 1 ∷ []) 1)
        (two_state (catching_up 1 1 2 false) (event 1 ∷ []) 1) =
      subst
        (λ p.
          Step json (two_state (catching_up 1 0 2 false) (event 1 ∷ []) 1)
            (catch_up_line json 1 p (two_state (catching_up 1 1 2 false) (event 1 ∷ []) 1)))
        (json-JsonLaws.parse_stringify (event 1)) (yields_catch_up refl (omega arith) refl) in
    let new : Step json (two_state (catching_up 1 1 2 false) (event 1 ∷ []) 1)
        (two_state (catching_up 1 2 2 false) (event 1 ∷ event 2 ∷ []) 2) =
      subst
        (λ p.
          Step json (two_state (catching_up 1 1 2 false) (event 1 ∷ []) 1)
            (catch_up_line json 1 p (two_state (catching_up 1 2 2 false) (event 1 ∷ []) 1)))
        (json-JsonLaws.parse_stringify (event 2)) (yields_catch_up refl (omega arith) refl) in
    later (later (later (later read old) new) (ends_catch_up_file refl refl)) (ends_catch_up refl)

follows : Reach json (opened json 0) end_state
unfolding push_event loop_round wake
follows =
    let waits : Reach json (opened json 0) waiting_state = later catches_up (drains refl) in
    later (later (later (later waits (pushes "delta" 3 7 refl)) (finishes refl)) (wakes false refl))
      (drains refl)

-- The reader is at the end of the file, and the run pushes its last event and is done.
lost :
    (s : Stream ℕ) × Reach json (opened json 0) s
    × (s.phase ≡ replayed)
    × (s.last_seq ≡ 1)
    × (s.written ≡ [])
unfolding push_event end_replay
lost = (
  _,
  later
      (later (later (later here (ends_replay_file refl refl)) (pushes "delta" 1 7 refl))
        (finishes refl))
      (ends_replay refl),
  refl,
  refl,
  refl,
)

stream_prefix_example :
    (rest : List (StreamEvent ℕ)) × (above 0 (decode json (json.stringify (event 1) ∷ []))
      ≡ event 1 ∷ rest)
stream_prefix_example = stream_prefix json json-JsonLaws 0 replays

stream_complete_example : end_state.written ≡ above 0 (decode json end_state.lines)
stream_complete_example = stream_complete json json-JsonLaws 0 follows refl
