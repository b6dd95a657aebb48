-- ===== src/Agent/Flush/Transcript.antt =====
-- What the thread's history holds while a run goes on and after it ends.
use tegg.Prelude.{
  ℕ, ◌≤◌, ◌≡◌, refl, sym, ◌∙◌, ap, ◌≢◌, ◌⊎◌, inl, inr, String, Bool, true, false, List, [], ◌∷◌,
  ◌++◌, map, none, filter, length, take, drop, take-append-drop, take-length, take-append_left,
  filter-append, map-append, append-nil, append_assoc, length-append, Bool-cases, Option-cases,
  List-cases, arith, All, if◌then◌else◌,
}
use tegg.Agent.{InputMessage}
use tegg.Agent.Message.{AgentMessage, NormalizedMessage, annotate_for_storage, to_agent_messages}
use tegg.Agent.Flush.{
  Append, stored, lost, ambiguous, Stream, Hook, to_append, flush, round, rounds, opened,
  mark_committed_if_needed,
}

module _ {J : Type 0} (pack : String → J → J) (input : List (InputMessage J)) where
  abbrev pub inputs : List (AgentMessage J)
  inputs = to_agent_messages pack input

  -- The durable messages, as they are stored.
  abbrev pub durable_of : List (NormalizedMessage J) → List (AgentMessage J)
  durable_of ns = map annotate_for_storage (filter (λ n. n.durable) ns)

  -- What a flusher has mirrored.
  abbrev flushed : Stream J → List (AgentMessage J)
  flushed s =
      if s.input_flushed then inputs ++ durable_of (take s.flushed_count s.normalized) else []

  -- The same, over what the thread held before.
  abbrev mirrored : List (AgentMessage J) → Stream J → List (AgentMessage J)
  mirrored base s = base ++ flushed s

  pub record IsMirror (base : List (AgentMessage J)) (s : Stream J) : Type 0 where
    pub thread : s.thread ≡ mirrored base s
    pub cursor : s.flushed_count ≤ length s.normalized
    pub unflushed : s.input_flushed ≡ false → s.flushed_count ≡ 0

  durable_of-append :
      (xs ys : List (NormalizedMessage J)) → durable_of (xs ++ ys) ≡ durable_of xs ++ durable_of ys
  durable_of-append xs ys =
      ap (map annotate_for_storage) (filter-append (λ n. n.durable) xs ys)
      ∙ map-append annotate_for_storage (filter (λ n. n.durable) xs) (filter (λ n. n.durable) ys)

  durable_of-split :
      (k : ℕ) (ns : List (NormalizedMessage J))
      → durable_of (take k ns) ++ durable_of (drop k ns) ≡ durable_of ns
  durable_of-split k ns =
      sym (durable_of-append (take k ns) (drop k ns)) ∙ ap durable_of (take-append-drop k ns)

  -- A flush that is not held back and stores brings what is mirrored up to the whole stream.
  flushed-to_append :
      (base : List (AgentMessage J)) (s : Stream J)
      → IsMirror base s
      → flushed s ++ to_append pack input s ≡ inputs ++ durable_of s.normalized
  unfolding to_append
  flushed-to_append base s m = elim (Bool-cases s.input_flushed) [
    | inl t ↦
        let held : flushed s ≡ inputs ++ durable_of (take s.flushed_count s.normalized) =
          ground arith in
        let more : to_append pack input s ≡ durable_of (drop s.flushed_count s.normalized) =
          ground arith in
        rw (held, more)
          (append_assoc inputs (durable_of (take s.flushed_count s.normalized))
              (durable_of (drop s.flushed_count s.normalized))
            ∙ ap (λ z. inputs ++ z) (durable_of-split s.flushed_count s.normalized))
    | inr f ↦
        let held : flushed s ≡ [] = ground arith in
        let from_start : s.flushed_count ≡ 0 = m.unflushed f in
        let more : to_append pack input s ≡ inputs ++ durable_of s.normalized =
          ground (arith, ap (λ k. durable_of (drop k s.normalized)) from_start) in
        rw (held, more)
  ]

  whole :
      (base : List (AgentMessage J)) (s : Stream J)
      → IsMirror base s
      → s.thread ++ to_append pack input s ≡ base ++ (inputs ++ durable_of s.normalized)
  whole base s m =
      ap (λ z. z ++ to_append pack input s) m.thread
      ∙ append_assoc base (flushed s) (to_append pack input s)
      ∙ ap (λ z. base ++ z) (flushed-to_append base s m)

  -- The whole stream, mirrored.
  abbrev complete : List (AgentMessage J) → Stream J → List (AgentMessage J)
  complete base s = base ++ (inputs ++ durable_of s.normalized)

  -- A flush that throws nothing either was held back, or has mirrored the whole stream.
  flush_clean :
      (base : List (AgentMessage J)) (force : Bool) (outcome : Append) (s : Stream J)
      → IsMirror base s
      → (flush pack input force outcome s).1 ≡ none
      → ((force ≡ false) × (s.committed ≡ false) × ((flush pack input force outcome s).0 ≡ s))
        ⊎ ((flush pack input force outcome s).0.thread ≡ complete base s)
          × ((flush pack input force outcome s).0.flushed_count ≡ length s.normalized)
          × ((flush pack input force outcome s).0.input_flushed ≡ true)
          × ((flush pack input force outcome s).0.normalized ≡ s.normalized)
  unfolding flush
  flush_clean base force outcome s m h = elim (List-cases (to_append pack input s)) [
    | inl e ↦ ground (arith, whole base s m, ap (λ z. s.thread ++ z) e, append-nil s.thread)
    | inr (x, xs, e) ↦ ground (arith, whole base s m)
  ]

  flush_throws :
      (force : Bool) (outcome : Append) (s : Stream J)
      → outcome ≢ ambiguous
      → (flush pack input force outcome s).1 ≢ none
      → (flush pack input force outcome s).0 ≡ s
  unfolding flush
  flush_throws force stored s a h = ground (arith, h)
  flush_throws force lost s a h = ground (arith, h)
  flush_throws force ambiguous s a h = absurd (a refl)

  done-IsMirror :
      (base : List (AgentMessage J)) (s t : Stream J)
      → t.thread ≡ complete base s
      → t.flushed_count ≡ length s.normalized
      → t.input_flushed ≡ true
      → t.normalized ≡ s.normalized
      → IsMirror base t
  done-IsMirror base s t th k i n = record {
    thread =
        th
        ∙ ap (λ z. base ++ (inputs ++ durable_of z)) (sym (take-length s.normalized))
        ∙ ground (arith, k, i, n);
    cursor = ground (arith, k, n);
    unflushed = λ f. ground (arith, i, f);
  }

  flush-IsMirror :
      (base : List (AgentMessage J)) (force : Bool) (outcome : Append) (s : Stream J)
      → outcome ≢ ambiguous
      → IsMirror base s
      → IsMirror base (flush pack input force outcome s).0
  flush-IsMirror base force outcome s a m =
      elim (Option-cases (flush pack input force outcome s).1) [
        | inr (e, thrown) ↦ rw (flush_throws force outcome s a (λ n. cc)) m
        | inl clean ↦ elim (flush_clean base force outcome s m clean) [
          | inl (_, _, same) ↦ rw same m
          | inr (th, k, i, n) ↦ done-IsMirror base s (flush pack input force outcome s).0 th k i n
        ]
      ]

  push-IsMirror :
      (base : List (AgentMessage J)) (n : NormalizedMessage J) (b : Bool) (s : Stream J)
      → IsMirror base s
      → IsMirror base (record s { normalized = s.normalized ++ n ∷ []; committed = b })
  push-IsMirror base n b s m = record {
    thread =
        m.thread
        ∙ ap (λ z. base ++ (if s.input_flushed then inputs ++ durable_of z else []))
            (sym (take-append_left s.flushed_count s.normalized (n ∷ []) m.cursor));
    cursor = omega (arith, m.cursor, length-append {0} s.normalized (n ∷ []));
    unflushed = m.unflushed;
  }

  -- The store never reports a failure of an append that it has made.
  abbrev pub IsClear : List (Hook × NormalizedMessage J × Append) → Type 0
  IsClear rs = All (λ r. r.2 ≢ ambiguous) rs

  abbrev pub yields : List (Hook × NormalizedMessage J × Append) → List (NormalizedMessage J)
  yields rs = map (λ r. r.1) rs

  rounds-IsMirror :
      (base : List (AgentMessage J)) (rs : List (Hook × NormalizedMessage J × Append))
      (s : Stream J)
      → IsClear rs
      → IsMirror base s
      → IsMirror base (rounds pack input rs s)
  unfolding rounds
  rounds-IsMirror base [] s c m = m
  rounds-IsMirror base ((hook, n, outcome) ∷ rs) s c m =
      rounds-IsMirror base rs (round pack input (hook, n, outcome) s) c.1 (
        flush-IsMirror base false outcome _ c.0
          (push-IsMirror base n (mark_committed_if_needed hook n s.committed) s m))

  flush-normalized :
      (force : Bool) (outcome : Append) (s : Stream J)
      → (flush pack input force outcome s).0.normalized ≡ s.normalized
  unfolding flush
  flush-normalized force stored s = ground arith
  flush-normalized force lost s = ground arith
  flush-normalized force ambiguous s = ground arith

  rounds-normalized :
      (rs : List (Hook × NormalizedMessage J × Append)) (s : Stream J)
      → (rounds pack input rs s).normalized ≡ s.normalized ++ yields rs
  unfolding rounds
  rounds-normalized [] s = sym (append-nil s.normalized)
  rounds-normalized ((hook, n, outcome) ∷ rs) s =
      rounds-normalized rs (round pack input (hook, n, outcome) s)
      ∙ ap (λ z. z ++ yields rs) (flush-normalized false outcome _)
      ∙ append_assoc s.normalized (n ∷ []) (yields rs)

  opened-IsMirror : (base : List (AgentMessage J)) → IsMirror base (opened base)
  opened-IsMirror base = record {
    thread = sym (append-nil base);
    cursor = omega arith;
    unflushed = λ e. refl;
  }

  -- However a run's appends succeed or fail, as long as none is made and then reported as failed, and
  -- whenever its session commits, the thread holds all that it held before and then a beginning of the
  -- input messages followed by the durable messages in the order of the stream: nothing lost of the
  -- old messages, nothing twice, nothing out of order, nothing left out in between.
  pub rounds_prefix :
      (base : List (AgentMessage J)) (rs : List (Hook × NormalizedMessage J × Append))
      → IsClear rs
      → (part : List (AgentMessage J)) × (rest : List (AgentMessage J)) × ((rounds pack input rs
            (opened base)).thread
          ≡ base ++ part)
        × (part ++ rest ≡ inputs ++ durable_of (yields rs))
  rounds_prefix base rs c =
      let s = rounds pack input rs (opened base) in
      let m = rounds-IsMirror base rs (opened base) c (opened-IsMirror base) in
      (
        flushed s,
        to_append pack input s,
        m.thread,
        flushed-to_append base s m
            ∙ ap (λ z. inputs ++ durable_of z) (rounds-normalized rs (opened base)),
      )

  -- The final flush of a run that ends normally: if it does not throw, the thread holds the input
  -- messages and every durable message, also where the session never committed.
  pub rounds_complete :
      (base : List (AgentMessage J)) (rs : List (Hook × NormalizedMessage J × Append))
      (outcome : Append)
      → IsClear rs
      → (flush pack input true outcome (rounds pack input rs (opened base))).1 ≡ none
      → (flush pack input true outcome (rounds pack input rs (opened base))).0.thread
        ≡ base ++ (inputs ++ durable_of (yields rs))
  rounds_complete base rs outcome c h =
      elim (flush_clean base true outcome (rounds pack input rs (opened base))
        (rounds-IsMirror base rs (opened base) c (opened-IsMirror base)) h) [
          | inl (f, _, _) ↦ absurd (ground arith)
          | inr (th, _, _, _) ↦
              th ∙ ap (λ z. base ++ (inputs ++ durable_of z)) (rounds-normalized rs (opened base))
        ]

  -- No message of the run tells that its session is committed.
  abbrev pub NeverCommits : List (Hook × NormalizedMessage J × Append) → Type 0
  NeverCommits rs = All (λ r. mark_committed_if_needed r.0 r.1 false ≡ false) rs

  held_back :
      (hook : Hook) (n : NormalizedMessage J) (outcome : Append) (s : Stream J)
      → s.committed ≡ false
      → mark_committed_if_needed hook n false ≡ false
      → ((round pack input (hook, n, outcome) s).committed ≡ false)
        × ((round pack input (hook, n, outcome) s).thread ≡ s.thread)
  unfolding round flush
  held_back hook n outcome s e c = ground (arith, ap (mark_committed_if_needed hook n) e)

  uncommitted :
      (rs : List (Hook × NormalizedMessage J × Append)) (s : Stream J)
      → s.committed ≡ false
      → NeverCommits rs
      → (rounds pack input rs s).thread ≡ s.thread
  unfolding rounds
  uncommitted [] s e c = refl
  uncommitted ((hook, n, outcome) ∷ rs) s e c =
      let quiet = held_back hook n outcome s e c.0 in
      uncommitted rs (round pack input (hook, n, outcome) s) quiet.0 c.1 ∙ quiet.1

  -- A run that dies before its session commits leaves the thread untouched, whatever the store does.
  pub rounds_uncommitted :
      (base : List (AgentMessage J)) (rs : List (Hook × NormalizedMessage J × Append))
      → NeverCommits rs
      → (rounds pack input rs (opened base)).thread ≡ base
  rounds_uncommitted base rs c = uncommitted rs (opened base) refl c
