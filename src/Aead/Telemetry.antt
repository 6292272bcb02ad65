-- ===== src/Aead/Telemetry.antt =====
-- publishTelemetry of path_aead.go, up to the message it sends.
use vault_plugin_aead.Prelude.{
  ℕ, Bytes, codes, List, [], ◌∷◌, ◌++◌, none, some, Outcome, ok, err, panic, length,
}
use vault_plugin_aead.Exec.{Exec}
use vault_plugin_aead.GoMap.{GoMap, get}
use vault_plugin_aead.Value.{Value, as_map}
use vault_plugin_aead.Value.Printing.{sprintf_s}
use vault_plugin_aead.Lookup.{Config}
use vault_plugin_aead.Config.{Storage, KvSink, World, Message, get_aead_config}

-- A config value as it is printed, or a default.
abbrev pub setting : Config → Bytes → Bytes → Bytes
unfolding get sprintf_s
setting config key default = elim (get key config) [ none ↦ default | some v ↦ sprintf_s v ]

-- The size of the last map that the loop over the data meets, or 1.
unfoldable pub count_fields : GoMap Value → ℕ → ℕ
count_fields [] fields = fields
count_fields ((k, v) ∷ raw) fields =
    count_fields raw (elim (as_map v) [ none ↦ fields | some m ↦ length m ])

-- No message is made unless TELEMETRY_LM is configured.
unfoldable pub telemetry_message : Config → Bytes → GoMap Value → List Message
unfolding get sprintf_s setting count_fields
telemetry_message config operation raw = elim (get (codes "TELEMETRY_LM") config) [
  | none ↦ []
  | some lm ↦
      record {
        project = setting config (codes "TELEMETRY_PROJECTID") (codes "your-pubsub-project");
        topic = setting config (codes "TELEMETRY_TOPICID") (codes "eaas-telemetry");
        market = sprintf_s lm;
        operation = operation;
        req_rows = length raw;
        req_fields = count_fields raw 1;
      }
      ∷ []
]

module _ {s : Storage} {k : KvSink} where
  -- publishTelemetry returns silently if the config cannot be read.
  abbrev publish_after :
      Bytes → GoMap Value → Outcome (Unit {0}) → World s k → Outcome (Unit {0}) × World s k
  unfolding telemetry_message
  publish_after operation raw (ok _) w =
      (ok tt, record w { published = w.published ++ telemetry_message w.cache operation raw })
  publish_after operation raw (err e) w = (ok tt, w)
  publish_after operation raw panic w = (panic, w)

  unfoldable pub publish_telemetry : Bytes → GoMap Value → Exec (World s k) (Unit {0})
  unfolding get_aead_config publish_after
  publish_telemetry operation raw w =
      publish_after operation raw (get_aead_config w).0 (get_aead_config w).1
