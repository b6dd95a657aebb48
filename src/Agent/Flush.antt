-- ===== src/Agent/Flush.antt =====
-- core/agent-runtime/src/AgentRuntime.ts: `createMessageFlusher` and `markCommittedIfNeeded`, as the
-- steps that one run makes on its task, its stream and the thread's stored messages.
pub mod Transcript
use tegg.Prelude.{
  ℕ, String, Bool, true, false, not, ◌&&◌, ◌||◌, List, [], ◌∷◌, ◌++◌, map, Option, none, some,
  if◌then◌else◌, ◌==◌, string_key, filter, length, drop, Result, ok, err,
}
use tegg.Agent.{AgentError, other, InputMessage}
use tegg.Agent.Message.{
  AgentMessage, NormalizedMessage, Protocol, v1, v2, annotate_for_storage, to_agent_messages, is,
}

-- What `store.appendMessages` does: it stores the messages, or throws with nothing stored, or throws
-- although they are stored (a response that was lost).
pub data Append : Type 0 where
  stored lost ambiguous : Append

pub record Stream (J : Type 0) : Type 0 where
  pub committed : Bool
  pub normalized : List (NormalizedMessage J)
  pub flushed_count : ℕ
  pub input_flushed : Bool
  -- The messages that the store holds for the thread.
  pub thread : List (AgentMessage J)

-- What the executor's `isSessionCommitted` does: it is missing, answers, or throws.
pub data Hook : Type 0 where
  absent : Hook
  answers : Bool → Hook
  throws : Hook

module _ {J : Type 0} where
  is_committed : Hook → NormalizedMessage J → Bool
  is_committed hook n = elim n.protocol [
    | v2 ↦ elim n.session_committed [ none ↦ false | some b ↦ b ]
    | v1 ↦ elim hook [ absent ↦ not (is n.message.type "system") | answers b ↦ b | throws ↦ false ]
  ]

  unfoldable pub mark_committed_if_needed : Hook → NormalizedMessage J → Bool → Bool
  unfolding is_committed
  mark_committed_if_needed hook n committed = if committed then true else is_committed hook n

  -- The messages that a flush hands to the store.
  unfoldable pub to_append :
      (String → J → J) → List (InputMessage J) → Stream J → List (AgentMessage J)
  to_append pack input s =
      (if s.input_flushed then [] else to_agent_messages pack input)
      ++ map annotate_for_storage (filter (λ n. n.durable) (drop s.flushed_count s.normalized))

  abbrev advance : Stream J → Stream J
  advance s = record s { flushed_count = length s.normalized; input_flushed = true }

  abbrev is_empty : List (AgentMessage J) → Bool
  is_empty [] = true
  is_empty (m ∷ ms) = false

  append_messages : Append → List (AgentMessage J) → Stream J → Stream J × Option AgentError
  append_messages stored ms s = (advance (record s { thread = s.thread ++ ms }), none)
  append_messages lost ms s = (s, some (other "append failed"))
  append_messages ambiguous ms s =
      (record s { thread = s.thread ++ ms }, some (other "append failed"))

  -- The state after a flush, and the error that it throws.
  unfoldable pub flush :
      (String → J → J)
      → List (InputMessage J)
      → Bool
      → Append
      → Stream J
      → Stream J × Option AgentError
  unfolding to_append append_messages
  flush pack input force outcome s =
      if not force && not s.committed
      then (s, none)
      else if is_empty (to_append pack input s)
      then (advance s, none)
      else append_messages outcome (to_append pack input s) s

  unfoldable pub flush_quietly :
      (String → J → J) → List (InputMessage J) → Append → Stream J → Stream J
  unfolding flush
  flush_quietly pack input outcome s = (flush pack input false outcome s).0

  -- A round of the loop over the executor's messages: push, mark, flush.
  unfoldable pub round :
      (String → J → J)
      → List (InputMessage J)
      → Hook × NormalizedMessage J × Append
      → Stream J
      → Stream J
  unfolding flush_quietly mark_committed_if_needed
  round pack input (hook, n, outcome) s = flush_quietly pack input outcome (record s {
    normalized = s.normalized ++ n ∷ [];
    committed = mark_committed_if_needed hook n s.committed;
  })

  unfoldable pub rounds :
      (String → J → J)
      → List (InputMessage J)
      → List (Hook × NormalizedMessage J × Append)
      → Stream J
      → Stream J
  unfolding round
  rounds pack input [] s = s
  rounds pack input (r ∷ rs) s = rounds pack input rs (round pack input r s)

  abbrev pub opened : List (AgentMessage J) → Stream J
  opened thread = record {
    committed = false;
    normalized = [];
    flushed_count = 0;
    input_flushed = false;
    thread = thread;
  }
