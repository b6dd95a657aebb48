-- ===== src/Store/Stamps.antt =====
-- The messages of a thread as appending stores them.
use tegg.Prelude.{ℕ, ◌≡◌, refl, List, [], ◌∷◌, Option, none, some, map}
use tegg.Agent.Message.{EggExt, AgentMessage}
use tegg.Store.Threads.{stamp_ext, stamp}

-- What an annotation leaves besides the time, of one that may be missing.
abbrev pub Annotates : Option EggExt → EggExt → Type 0
Annotates none ext = (ext.runtime_protocol ≡ none) × (ext.conversational ≡ none)
Annotates (some old) ext =
    (ext.runtime_protocol ≡ old.runtime_protocol) × (ext.conversational ≡ old.conversational)

-- A message as it is stored: stamped with the time, and else as it was.
pub record IsStamped {J : Type 0} (now_ms : ℕ) (m stored : AgentMessage J) : Type 0 where
  pub ext : EggExt
  pub annotated : stored ≡ record m { egg_ext = some ext }
  pub persisted_at_ms : ext.persisted_at_ms ≡ some now_ms
  pub keeps : Annotates m.egg_ext ext

-- One message for one.
abbrev pub AreStamped : {J : Type 0} → ℕ → List (AgentMessage J) → List (AgentMessage J) → Type 0
AreStamped now_ms [] stored = stored ≡ []
AreStamped {J} now_ms (m ∷ ms) stored =
    (first : AgentMessage J) × (rest : List (AgentMessage J)) × (stored ≡ first ∷ rest)
    × IsStamped now_ms m first
    × AreStamped now_ms ms rest

stamp_ext-Annotates :
    (now_ms : ℕ) (old : Option EggExt)
    → ((stamp_ext now_ms old).persisted_at_ms ≡ some now_ms) × Annotates old (stamp_ext now_ms old)
stamp_ext-Annotates now_ms none = (refl, (refl, refl))
stamp_ext-Annotates now_ms (some ext) = (refl, (refl, refl))

stamp-IsStamped :
    {J : Type 0} (now_ms : ℕ) (m : AgentMessage J) → IsStamped now_ms m (stamp now_ms m)
stamp-IsStamped now_ms m = record {
  ext = stamp_ext now_ms m.egg_ext;
  annotated = refl;
  persisted_at_ms = (stamp_ext-Annotates now_ms m.egg_ext).0;
  keeps = (stamp_ext-Annotates now_ms m.egg_ext).1;
}

pub map-AreStamped :
    {J : Type 0} (now_ms : ℕ) (ms : List (AgentMessage J))
    → AreStamped now_ms ms (map (stamp now_ms) ms)
map-AreStamped now_ms [] = refl
map-AreStamped now_ms (m ∷ ms) = (
  stamp now_ms m,
  map (stamp now_ms) ms,
  refl,
  stamp-IsStamped now_ms m,
  map-AreStamped now_ms ms,
)
