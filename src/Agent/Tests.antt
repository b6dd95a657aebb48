-- ===== src/Agent/Tests.antt =====
-- Runs, messages and flushes at concrete inputs.
use tegg.Prelude.{
  ℕ, ◌≡◌, refl, String, Bool, true, false, List, [], ◌∷◌, ◌++◌, none, some, arith, pos,
}
use tegg.Agent.{
  queued, in_progress, completed, no_update, RunRecord, RunUpdate, assign, InputMessage, now_unix,
}
use tegg.Agent.Run.{RunBuilder, create, starts, completes, begins_cancelling, cancels, call}
use tegg.Agent.Run.Transitions.{Answers, call-Answers, replay, call-create}
use tegg.Agent.Run.Timing.{IsTimed, history-IsTimed}
use tegg.Agent.Message.{
  AgentMessage, Yielded, NormalizedMessage, v1, v2, normalize, is_conversation_message,
  annotate_for_storage, filter_for_storage, is_transient_message, to_agent_messages,
}
use tegg.Agent.Message.Usage.{normalize-IsReadBy, IsReadBy, conversation-annotate}
use tegg.Agent.Flush.{
  Append, stored, lost, ambiguous, Hook, absent, rounds, flush, opened, mark_committed_if_needed,
}
use tegg.Agent.Flush.Transcript.{
  inputs, durable_of, yields, rounds_prefix, rounds_complete, rounds_uncommitted,
}

runs : Unit {0}
unfolding assign create call replay normalize is_conversation_message annotate_for_storage
    filter_for_storage is_transient_message to_agent_messages rounds flush now_unix
runs = tt

abbrev pub fresh : RunRecord ℕ
fresh = record {
  id = "run_1";
  thread_id = some "thread_1";
  status = queued;
  input = [];
  last_error = none;
  usage = none;
  config = none;
  metadata = none;
  created_at = 1;
  started_at = none;
  completed_at = none;
  cancelled_at = none;
  failed_at = none;
  started_at_ms = none;
  completed_at_ms = none;
  duration_ms = none;
  api_duration_ms = none;
}

abbrev finished : RunBuilder ℕ
finished = replay (starts 1500 ∷ completes 4200 none none ∷ []) (create fresh "thread_1")

finished_run :
    (finished.status ≡ completed)
    × (finished.started_at ≡ some 1)
    × (finished.completed_at ≡ some 4)
    × (finished.duration_ms ≡ some (pos 2700))
unfolding runs
finished_run = (refl, refl, refl, refl)

abbrev started : RunBuilder ℕ
started = record (create fresh "thread_1") {
  status = in_progress;
  started_at = some 1;
  started_at_ms = some 1500;
}

abbrev start_update : RunUpdate
start_update = record no_update {
  status = some in_progress;
  started_at = some (some 1);
  started_at_ms = some (some 1500);
}

call-create_example : create (assign fresh start_update) "thread_1" ≡ started
unfolding runs
call-create_example = call-create (starts 1500) fresh "thread_1" started start_update refl

history-IsTimed_example :
    IsTimed (replay (starts 1500 ∷ begins_cancelling ∷ cancels 3000 ∷ []) (create fresh "thread_1"))
history-IsTimed_example =
    history-IsTimed (starts 1500 ∷ begins_cancelling ∷ cancels 3000 ∷ []) fresh "thread_1"
      (ground arith)

abbrev message : String → ℕ → AgentMessage ℕ
message type body = record {
  type = some type;
  subtype = none;
  egg_ext = none;
  usage = none;
  duration_api_ms = none;
  body = body;
}

-- A V2 envelope whose payload looks like a system message and is declared conversational.
abbrev envelope : Yielded ℕ
envelope = record {
  agent = record (message "" 7) { type = none };
  protocol = some "agent-runtime/v2";
  event_type = some "text";
  persistence = some "durable";
  payload = some (message "system" 7);
  conversational = none;
  session_committed = some true;
  usage = none;
  api_duration_ms = none;
}

abbrev plain : AgentMessage ℕ → Yielded ℕ
plain m = record {
  agent = m;
  protocol = none;
  event_type = none;
  persistence = none;
  payload = none;
  conversational = none;
  session_committed = none;
  usage = none;
  api_duration_ms = none;
}

abbrev as_v2 : NormalizedMessage ℕ
as_v2 = record {
  protocol = v2;
  message = message "system" 7;
  event_type = "text";
  durable = true;
  conversational = true;
  session_committed = some true;
  usage = none;
  api_duration_ms = none;
}

abbrev as_v1 : String → ℕ → Bool → NormalizedMessage ℕ
as_v1 type body durable = record {
  protocol = v1;
  message = message type body;
  event_type = type;
  durable = durable;
  conversational = false;
  session_committed = none;
  usage = none;
  api_duration_ms = none;
}

conversation-annotate_example : is_conversation_message (annotate_for_storage as_v2) ≡ true
unfolding runs
conversation-annotate_example = conversation-annotate envelope as_v2 refl (λ e. refl)

abbrev pack : String → ℕ → ℕ
pack role content = content

abbrev input : List (InputMessage ℕ)
input = record { role = "system"; content = 1 } ∷ record { role = "user"; content = 2 } ∷ []

-- The first append is lost, the second one makes up for it.
abbrev stream : List (Hook × NormalizedMessage ℕ × Append)
stream =
    (absent, as_v1 "system" 3 true, stored)
    ∷ (absent, as_v1 "stream_event" 4 false, lost)
    ∷ (absent, as_v1 "result" 5 true, stored)
    ∷ []

stream_thread :
    (rounds pack input stream (opened [])).thread
    ≡ message "user" 2 ∷ message "system" 3 ∷ message "result" 5 ∷ []
unfolding runs
stream_thread = refl

-- An append that is reported as failed although it was made is made again.
ambiguous_thread :
    (rounds pack input
      ((absent, as_v1 "result" 5 true, ambiguous)
        ∷ (absent, as_v1 "stream_event" 6 false, stored)
        ∷ [])
      (opened [])).thread
    ≡ message "user" 2 ∷ message "result" 5 ∷ message "user" 2 ∷ message "result" 5 ∷ []
unfolding runs
ambiguous_thread = refl

rounds_prefix_example :
    (part : List (AgentMessage ℕ)) × (rest : List (AgentMessage ℕ)) × ((rounds pack input stream
        (opened (inputs pack input))).thread
      ≡ inputs pack input ++ part)
    × (part ++ rest ≡ inputs pack input ++ durable_of pack input (yields pack input stream))
rounds_prefix_example =
    rounds_prefix pack input (inputs pack input) stream (λ e. cc, (λ e. cc, (λ e. cc, tt)))

rounds_complete_example :
    (flush pack input true stored (rounds pack input stream (opened []))).0.thread
    ≡ [] ++ (inputs pack input ++ durable_of pack input (yields pack input stream))
unfolding runs
rounds_complete_example =
    rounds_complete pack input [] stream stored (λ e. cc, (λ e. cc, (λ e. cc, tt))) refl

rounds_uncommitted_example :
    (rounds pack input ((absent, as_v1 "system" 3 true, stored) ∷ []) (opened [])).thread ≡ []
unfolding mark_committed_if_needed
rounds_uncommitted_example =
    rounds_uncommitted pack input [] ((absent, as_v1 "system" 3 true, stored) ∷ []) (refl, tt)

call-Answers_example :
    Answers begins_cancelling queued (call begins_cancelling (create fresh "thread_1"))
unfolding runs
call-Answers_example = call-Answers begins_cancelling (create fresh "thread_1")

normalize-IsReadBy_example : IsReadBy envelope (normalize envelope)
normalize-IsReadBy_example = normalize-IsReadBy envelope

abbrev result : AgentMessage ℕ
result = record (message "result" 9) {
  usage = some (record { input_tokens = some 3; output_tokens = none });
}
