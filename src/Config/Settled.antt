-- ===== src/Config/Settled.antt =====
-- A world whose cache is what a refresh gives: every further getAeadConfig changes nothing.
use vault_plugin_aead.Prelude.{List, Option, none, some, ok, ◌≡◌, ◌∙◌}
use vault_plugin_aead.GoMap.Order.{IsMap}
use vault_plugin_aead.Lookup.{Config}
use vault_plugin_aead.Config.{
  Storage, IsStorage, KvSink, World, Message, refresh, stored, get_aead_config,
}
use vault_plugin_aead.Config.Refresh.{refresh_idem}

pub stored-IsMap :
    (s : Storage)
    → IsStorage s
    → (st : s.State) (entry : Option Config) → s.read_entry st ≡ ok entry
    → IsMap (stored entry)
stored-IsMap s l st none e = tt
stored-IsMap s l st (some c) e = l.unique st c e

module _ {s : Storage} {k : KvSink} where
  pub record IsSettled (w : World s k) : Type 0 where
    pub entry : Option Config
    pub read : s.read_entry w.storage ≡ ok entry
    pub fixed : refresh (stored entry) w.cache ≡ w.cache

  -- What getAeadConfig makes of a world whose stored config is read.
  abbrev pub settle : Option Config → World s k → World s k
  settle entry w = record w { cache = refresh (stored entry) w.cache }

  abbrev pub publish : List Message → World s k → World s k
  publish messages w = record w { published = messages }

  pub get_aead_config_read :
      (w : World s k) (entry : Option Config)
      → s.read_entry w.storage ≡ ok entry
      → get_aead_config w ≡ (ok tt, settle entry w)
  unfolding get_aead_config
  get_aead_config_read w entry e = rw e

  pub get_aead_config_settled : (w : World s k) → IsSettled w → get_aead_config w ≡ (ok tt, w)
  get_aead_config_settled w h =
      get_aead_config_read w h.entry h.read ∙ (λ i. (ok tt, record w { cache = h.fixed i }))

  pub publish-IsSettled :
      (messages : List Message) {w : World s k} → IsSettled w → IsSettled (publish messages w)
  publish-IsSettled messages h = record { entry = h.entry; read = h.read; fixed = h.fixed }

  pub settle-IsSettled :
      (l : IsStorage s) (w : World s k) (entry : Option Config)
      → s.read_entry w.storage ≡ ok entry
      → IsSettled (settle entry w)
  settle-IsSettled l w entry e = record {
    entry = entry;
    read = e;
    fixed = refresh_idem (stored entry) w.cache (stored-IsMap s l w.storage entry e);
  }

  pub settle_fixed :
      (l : IsStorage s) (w : World s k) (entry : Option Config)
      → s.read_entry w.storage ≡ ok entry
      → refresh (stored entry) (settle entry w).cache ≡ (settle entry w).cache
  settle_fixed l w entry e =
      refresh_idem (stored entry) w.cache (stored-IsMap s l w.storage entry e)
