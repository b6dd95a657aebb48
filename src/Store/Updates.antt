-- ===== src/Store/Updates.antt =====
-- A run after `Object.assign`, field by field.
use tegg.Prelude.{◌≡◌, refl, Option, none, some}
use tegg.Agent.{RunRecord, RunUpdate, given, assign}

-- A field after an update: the given value, or else the old one.
abbrev pub Takes {ℓ} : {A : Type ℓ} → Option A → A → A → Type ℓ
Takes none old now = now ≡ old
Takes (some new) old now = now ≡ new

given-Takes {ℓ} : {A : Type ℓ} (o : Option A) (old : A) → Takes o old (given o old)
given-Takes none old = refl
given-Takes (some new) old = refl

-- A run after an update, field by field.
pub record IsUpdated {J : Type 0} (run : RunRecord J) (u : RunUpdate) (now : RunRecord J)
    : Type 0 where
  pub id : now.id ≡ run.id
  pub thread_id : now.thread_id ≡ run.thread_id
  pub input : now.input ≡ run.input
  pub config : now.config ≡ run.config
  pub metadata : now.metadata ≡ run.metadata
  pub created_at : now.created_at ≡ run.created_at
  pub status : Takes u.status run.status now.status
  pub last_error : Takes u.last_error run.last_error now.last_error
  pub usage : Takes u.usage run.usage now.usage
  pub started_at : Takes u.started_at run.started_at now.started_at
  pub completed_at : Takes u.completed_at run.completed_at now.completed_at
  pub cancelled_at : Takes u.cancelled_at run.cancelled_at now.cancelled_at
  pub failed_at : Takes u.failed_at run.failed_at now.failed_at
  pub started_at_ms : Takes u.started_at_ms run.started_at_ms now.started_at_ms
  pub completed_at_ms : Takes u.completed_at_ms run.completed_at_ms now.completed_at_ms
  pub duration_ms : Takes u.duration_ms run.duration_ms now.duration_ms
  pub api_duration_ms : Takes u.api_duration_ms run.api_duration_ms now.api_duration_ms

pub assign-IsUpdated :
    {J : Type 0} (run : RunRecord J) (u : RunUpdate) → IsUpdated run u (assign run u)
unfolding assign
assign-IsUpdated run u = record {
  id = refl;
  thread_id = refl;
  input = refl;
  config = refl;
  metadata = refl;
  created_at = refl;
  status = given-Takes u.status run.status;
  last_error = given-Takes u.last_error run.last_error;
  usage = given-Takes u.usage run.usage;
  started_at = given-Takes u.started_at run.started_at;
  completed_at = given-Takes u.completed_at run.completed_at;
  cancelled_at = given-Takes u.cancelled_at run.cancelled_at;
  failed_at = given-Takes u.failed_at run.failed_at;
  started_at_ms = given-Takes u.started_at_ms run.started_at_ms;
  completed_at_ms = given-Takes u.completed_at_ms run.completed_at_ms;
  duration_ms = given-Takes u.duration_ms run.duration_ms;
  api_duration_ms = given-Takes u.api_duration_ms run.api_duration_ms;
}
