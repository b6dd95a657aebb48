-- ===== src/Agent/Stream.antt =====
-- core/agent-runtime/src/AgentRuntime.ts: the event stream of a run. The run appends events to a file
-- of JSON lines and emits them; a client that connects, at any time, replays the file and then goes on
-- with what is emitted. A step is the code between two waits. A read of the file takes a chunk at a
-- time, and finds the end of the file when nothing was appended since the last chunk.
pub mod Window
pub mod Replay
pub mod Follow
pub mod Clients
pub mod Tests
use tegg.Prelude.{
  ℕ, zero, suc, ◌+◌, ◌≤◌, ◌<◌, ◌≡◌, String, Bool, true, false, List, [], ◌∷◌, ◌++◌, Option, none,
  some, if◌then◌else◌, ltb, length, element, not, ◌&&◌, filter,
}
use tegg.Store.Lines.{Text, is_empty}
use tegg.Store.{Json}

pub record StreamEvent (J : Type 0) : Type 0 where
  pub seq : ℕ
  pub type : String
  pub payload : J
  pub ts : ℕ

-- Where `streamEventsToWriter` stands. A reader has the number that the events must be above, the
-- lines that it has yielded, those that it has read, and whether it has found the end of the file.
pub data Phase : Type 0 where
  replaying : (after_seq yielded limit : ℕ) → Bool → Phase
  catching_up : (after_seq yielded limit : ℕ) → Bool → Phase
  draining : Phase  -- the head of the `while` loop
  waiting : Phase  -- `waitForEvent`
  replayed : Phase  -- ended, as the run was done after the replay
  followed : Phase  -- ended behind the loop
  left : Phase  -- returned, as the writer was closed

-- The file and the `RunEventBuffer` of a run, with one client: its writer's `closed`, and what the
-- writer was given.
pub record Stream (J : Type 0) : Type 0 where
  pub lines : List Text
  pub last_seq : ℕ
  pub done : Bool
  pub closed : Bool
  pub written : List (StreamEvent J)
  pub phase : Phase
  pub last_written_seq : ℕ
  pub listening : Bool
  pub queue : List (StreamEvent J)

module _ {J : Type 0} (json : Json (StreamEvent J)) where
  -- `pushEvent`, and `onEvent` of a client that listens.
  unfoldable pub push_event : String → J → (now : ℕ) → Stream J → Stream J
  push_event type payload now s =
      let event : StreamEvent J = record {
        seq = suc s.last_seq;
        type = type;
        payload = payload;
        ts = now;
      } in
      record s {
        lines = s.lines ++ json.stringify event ∷ [];
        last_seq = suc s.last_seq;
        queue = if s.listening then s.queue ++ event ∷ [] else s.queue;
      }

  -- `writeEvent` to a writer that is open.
  unfoldable pub write_event : StreamEvent J → Stream J → Stream J
  write_event event s = record s { written = s.written ++ event ∷ []; last_written_seq = event.seq }

  -- `writer.end()`
  unfoldable pub end_writer : Phase → Stream J → Stream J
  end_writer phase s = record s { closed = true; phase = phase; listening = false }

  unfoldable pub leave : Stream J → Stream J
  leave s = record s { phase = left; listening = false }

  -- The body of the loop over the replayed events, for an event of the file or a malformed line.
  unfoldable pub replay_line : (after_seq : ℕ) → Option (StreamEvent J) → Stream J → Stream J
  unfolding write_event leave
  replay_line after none s = s
  replay_line after (some event) s =
      if not (ltb after event.seq) then s else (if s.closed then leave s else write_event event s)

  -- The body of the loop that catches up.
  unfoldable pub catch_up_line : (after_seq : ℕ) → Option (StreamEvent J) → Stream J → Stream J
  unfolding write_event leave
  catch_up_line after none s = s
  catch_up_line after (some event) s =
      if not (ltb after event.seq)
      then s
      else (if s.closed
          then leave s
          else (if ltb s.last_written_seq event.seq then write_event event s else s))

  -- Behind the replay: the end, or the start of listening.
  unfoldable pub end_replay : Stream J → Stream J
  unfolding end_writer
  end_replay s = if s.done then end_writer replayed s else record s {
    listening = true;
    queue = [];
    phase = catching_up s.last_written_seq 0 0 false;
  }

  -- The inner `while` loop over the queue of the state, with its return where the writer is closed.
  unfoldable pub drain : List (StreamEvent J) → Stream J → Stream J
  unfolding write_event leave
  drain [] s = s
  drain (event ∷ queue) s =
      let shifted = record s { queue = queue } in
      elim (ltb s.last_written_seq event.seq) [
        | true ↦ elim s.closed [
          | true ↦ leave shifted
          | false ↦ drain queue (write_event event shifted)
        ]
        | false ↦ drain queue shifted
      ]

  abbrev pub has_left : Phase → Bool
  has_left left = true
  has_left _ = false

  -- Behind the inner loop.
  unfoldable pub wait_or_end : Stream J → Stream J
  unfolding end_writer leave
  wait_or_end s =
      if has_left s.phase
      then s
      else (if s.done
          then end_writer followed s
          else (if s.closed then leave s else record s { phase = waiting }))

  -- One round of the outer loop, from its head to its wait.
  unfoldable pub loop_round : Stream J → Stream J
  unfolding drain wait_or_end end_writer
  loop_round s =
      if s.done && is_empty s.queue then end_writer followed s else wait_or_end (drain s.queue s)

  -- Behind the wait, for an event or the heartbeat.
  unfoldable pub wake : (heartbeat : Bool) → Stream J → Stream J
  unfolding leave
  wake heartbeat s =
      if heartbeat && is_empty s.queue && not s.done && s.closed
      then leave s
      else record s { phase = draining }

  -- The event that a line holds, as the reader of the file has it.
  abbrev pub parse_line : Text → Option (StreamEvent J)
  parse_line line = json.parse line

  pub data Step (s : Stream J) : Stream J → Type 0 where
    pushes :
        (type : String) (payload : J) (now : ℕ)
        → s.done ≡ false
        → Step s (push_event type payload now s)
    finishes : s.done ≡ false → Step s (record s { done = true })
    closes : Step s (record s { closed = true })
    reads_replay :
        {a y l m : ℕ}
        → s.phase ≡ replaying a y l false
        → l ≤ m
        → m ≤ length s.lines
        → Step s (record s { phase = replaying a y m false })
    ends_replay_file :
        {a y l : ℕ}
        → s.phase ≡ replaying a y l false
        → l ≡ length s.lines
        → Step s (record s { phase = replaying a y l true })
    yields_replay :
        {a y l : ℕ} {eof : Bool} {line : Text}
        → s.phase ≡ replaying a y l eof
        → y < l
        → element y s.lines ≡ some line
        → Step s (replay_line a (parse_line line) (record s { phase = replaying a (suc y) l eof }))
    ends_replay : {a y : ℕ} → s.phase ≡ replaying a y y true → Step s (end_replay s)
    reads_catch_up :
        {a y l m : ℕ}
        → s.phase ≡ catching_up a y l false
        → l ≤ m
        → m ≤ length s.lines
        → Step s (record s { phase = catching_up a y m false })
    ends_catch_up_file :
        {a y l : ℕ}
        → s.phase ≡ catching_up a y l false
        → l ≡ length s.lines
        → Step s (record s { phase = catching_up a y l true })
    yields_catch_up :
        {a y l : ℕ} {eof : Bool} {line : Text}
        → s.phase ≡ catching_up a y l eof
        → y < l
        → element y s.lines ≡ some line
        → Step s
            (catch_up_line a (parse_line line) (record s { phase = catching_up a (suc y) l eof }))
    ends_catch_up :
        {a y : ℕ} → s.phase ≡ catching_up a y y true → Step s (record s { phase = draining })
    drains : s.phase ≡ draining → Step s (loop_round s)
    wakes : (heartbeat : Bool) → s.phase ≡ waiting → Step s (wake heartbeat s)

  pub data Reach (start : Stream J) : Stream J → Type 0 where
    here : Reach start start
    later : {s t : Stream J} → Reach start s → Step s t → Reach start t

  -- The events of a file, malformed lines left out.
  unfoldable pub decode : List Text → List (StreamEvent J)
  decode [] = []
  decode (line ∷ lines) = elim (parse_line line) [
    | none ↦ decode lines
    | some event ↦ event ∷ decode lines
  ]

  -- `streamRun` before its first event; a client may come with any last number.
  abbrev pub opened : (last_seq : ℕ) → Stream J
  opened last_seq = record {
    lines = [];
    last_seq = 0;
    done = false;
    closed = false;
    written = [];
    phase = replaying last_seq 0 0 false;
    last_written_seq = last_seq;
    listening = false;
    queue = [];
  }
