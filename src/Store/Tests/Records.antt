-- ===== src/Store/Tests/Records.antt =====
-- The JSON of each record in the tests, and its laws.
use tegg.Prelude.{
  ℕ, ◌≡◌, refl, sym, ap, ◌∙◌, false, [], ◌∷◌, append-nil, Option, none, some, ◌==◌, nat_key, All,
  arith,
}
use tegg.Agent.{RunUsage, LastError, AgentRunConfig, InputMessage, RunRecord}
use tegg.Agent.Message.{EggExt, ResultUsage, AgentMessage}
use tegg.Store.{Json, ThreadMetadata}
use tegg.Store.Lines.{Text, trim_start, trim_end, newline}
use tegg.Store.Laws.{JsonLaws}
use tegg.Store.Tests.Codec.{
  base, AreUnits, Codec, nat_codec, iso_codec, pair_codec, list_codec, string_codec, option_codec,
  bool_codec, integer_codec, status_codec,
}

pub answer : {A : Type 0} → Option (A × Text) → Option A
answer none = none
answer (some (a, rest)) = some a

-- `{` first.
pub read_text : {A : Type 0} → Codec A → Text → Option A
unfolding answer
read_text c [] = none
read_text c (k ∷ t) = answer (c.read t)

abbrev pub json_of : {A : Type 0} → Codec A → Json A
json_of c = record { stringify = λ a. base ∷ c.write a; parse = read_text c }

trim_end_units : (t : Text) → AreUnits t → trim_end t ≡ t
unfolding trim_end
trim_end_units [] u = refl
trim_end_units (c ∷ cs) u = ground (arith, trim_end_units cs u.1)

on_one_line_units : (t : Text) → AreUnits t → All (λ c. (c == newline) ≡ false) t
on_one_line_units [] u = tt
on_one_line_units (c ∷ cs) u = (ground arith, on_one_line_units cs u.1)

pub json_of-JsonLaws : {A : Type 0} (c : Codec A) → JsonLaws (json_of c)
unfolding read_text answer trim_start
json_of-JsonLaws c = record {
  parse_stringify =
      λ a. ap (λ z. answer (c.read z)) (sym (append-nil (c.write a))) ∙ ap answer (c.back a []);
  line = λ a. record {
    filled = refl;
    on_one_line = on_one_line_units (base ∷ c.write a) (omega arith, c.units a);
    start = refl;
    end = trim_end_units (base ∷ c.write a) (omega arith, c.units a);
  };
}

abbrev pub thread_codec : Codec (ThreadMetadata ℕ)
thread_codec =
    iso_codec
      (pair_codec string_codec (
        pair_codec (list_codec (pair_codec string_codec nat_codec))
          (pair_codec nat_codec (option_codec string_codec))))
      (λ m. (m.id, (m.metadata, (m.created_at, m.latest_run_id))))
      (λ t. record { id = t.0; metadata = t.1.0; created_at = t.1.1.0; latest_run_id = t.1.1.1 })
      (λ m. refl)

abbrev pub ext_codec : Codec EggExt
ext_codec =
    iso_codec
      (pair_codec (option_codec string_codec)
        (pair_codec (option_codec bool_codec) (option_codec nat_codec)))
      (λ e. (e.runtime_protocol, (e.conversational, e.persisted_at_ms)))
      (λ t. record { runtime_protocol = t.0; conversational = t.1.0; persisted_at_ms = t.1.1 })
      (λ e. refl)

abbrev pub result_usage_codec : Codec ResultUsage
result_usage_codec =
    iso_codec (pair_codec (option_codec nat_codec) (option_codec nat_codec))
      (λ u. (u.input_tokens, u.output_tokens))
      (λ t. record { input_tokens = t.0; output_tokens = t.1 }) (λ u. refl)

abbrev pub message_codec : Codec (AgentMessage ℕ)
message_codec =
    iso_codec
      (pair_codec (option_codec string_codec) (
        pair_codec (option_codec string_codec) (
          pair_codec (option_codec ext_codec) (
            pair_codec (option_codec result_usage_codec)
              (pair_codec (option_codec nat_codec) nat_codec)))))
      (λ m. (m.type, (m.subtype, (m.egg_ext, (m.usage, (m.duration_api_ms, m.body))))))
      (λ t. record {
        type = t.0;
        subtype = t.1.0;
        egg_ext = t.1.1.0;
        usage = t.1.1.1.0;
        duration_api_ms = t.1.1.1.1.0;
        body = t.1.1.1.1.1;
      })
      (λ m. refl)

abbrev pub input_codec : Codec (InputMessage ℕ)
input_codec =
    iso_codec (pair_codec string_codec nat_codec) (λ m. (m.role, m.content))
      (λ t. record { role = t.0; content = t.1 }) (λ m. refl)

abbrev pub error_codec : Codec LastError
error_codec =
    iso_codec (pair_codec string_codec string_codec) (λ e. (e.code, e.message))
      (λ t. record { code = t.0; message = t.1 }) (λ e. refl)

abbrev pub usage_codec : Codec RunUsage
usage_codec =
    iso_codec (pair_codec nat_codec (pair_codec nat_codec nat_codec))
      (λ u. (u.prompt_tokens, (u.completion_tokens, u.total_tokens)))
      (λ t. record { prompt_tokens = t.0; completion_tokens = t.1.0; total_tokens = t.1.1 })
      (λ u. refl)

abbrev pub config_codec : Codec AgentRunConfig
config_codec =
    iso_codec (pair_codec (option_codec nat_codec) (option_codec nat_codec))
      (λ c. (c.max_iterations, c.timeout_ms))
      (λ t. record { max_iterations = t.0; timeout_ms = t.1 }) (λ c. refl)

abbrev pub time_codec : Codec (Option ℕ)
time_codec = option_codec nat_codec

abbrev pub run_codec : Codec (RunRecord ℕ)
run_codec =
    iso_codec
      (pair_codec
        (pair_codec string_codec (
          pair_codec (option_codec string_codec) (
            pair_codec status_codec (
              pair_codec (list_codec input_codec) (
                pair_codec (option_codec error_codec)
                  (pair_codec (option_codec usage_codec) (option_codec config_codec)))))))
        (pair_codec
          (pair_codec (option_codec (list_codec (pair_codec string_codec nat_codec)))
            (pair_codec nat_codec (pair_codec time_codec (pair_codec time_codec time_codec))))
          (pair_codec (pair_codec time_codec (pair_codec time_codec time_codec))
            (pair_codec (option_codec integer_codec) time_codec))))
      (λ r. (
        (r.id, (r.thread_id, (r.status, (r.input, (r.last_error, (r.usage, r.config)))))),
        (
          (r.metadata, (r.created_at, (r.started_at, (r.completed_at, r.cancelled_at)))),
          ((r.failed_at, (r.started_at_ms, r.completed_at_ms)), (r.duration_ms, r.api_duration_ms)),
        ),
      ))
      (λ t. record {
        id = t.0.0;
        thread_id = t.0.1.0;
        status = t.0.1.1.0;
        input = t.0.1.1.1.0;
        last_error = t.0.1.1.1.1.0;
        usage = t.0.1.1.1.1.1.0;
        config = t.0.1.1.1.1.1.1;
        metadata = t.1.0.0;
        created_at = t.1.0.1.0;
        started_at = t.1.0.1.1.0;
        completed_at = t.1.0.1.1.1.0;
        cancelled_at = t.1.0.1.1.1.1;
        failed_at = t.1.1.0.0;
        started_at_ms = t.1.1.0.1.0;
        completed_at_ms = t.1.1.0.1.1;
        duration_ms = t.1.1.1.0;
        api_duration_ms = t.1.1.1.1;
      })
      (λ r. refl)
