-- ===== src/Text/Prefixes.antt =====
-- Prefixes of texts that are put together.
use vault_plugin_aead.Prelude.{Bytes, true, [], ◌∷◌, ◌++◌, ◌≡◌, refl, arith, length}
use vault_plugin_aead.Text.{has_prefix, drop, trim_prefix}

pub has_prefix-append : (p s : Bytes) → has_prefix p (p ++ s) ≡ true
unfolding has_prefix
has_prefix-append [] s = refl
has_prefix-append (a ∷ p) s = ground (arith, has_prefix-append p s)

pub drop-append : (p s : Bytes) → drop (length p) (p ++ s) ≡ s
unfolding drop
drop-append [] s = refl
drop-append (a ∷ p) s = drop-append p s

-- A prefix that was put in front is taken off again.
pub trim_prefix-append : (p s : Bytes) → trim_prefix p (p ++ s) ≡ s
unfolding trim_prefix
trim_prefix-append p s = ground (arith, has_prefix-append p s, drop-append p s)
