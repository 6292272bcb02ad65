-- ===== src/Value/Each.antt =====
-- A loop over a map of values whose rounds may fail.
use vault_plugin_aead.Prelude.{Bytes, [], ◌∷◌, Outcome, ok, ◌>>=◌}
use vault_plugin_aead.GoMap.{GoMap}
use vault_plugin_aead.Value.{Value}

-- The results, by name; a failure of any round is the outcome.
unfoldable pub each : (Bytes → Value → Outcome Value) → GoMap Value → Outcome (GoMap Value)
each f [] = ok []
each f ((name, v) ∷ raw) = do c ← f name v; rest ← each f raw; ok ((name, c) ∷ rest)
