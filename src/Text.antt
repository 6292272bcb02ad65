-- ===== src/Text.antt =====
-- The functions of Go's package `strings` that the plugin calls, over byte strings.
pub mod Prefixes
pub mod Muting
use vault_plugin_aead.Prelude.{
  ℕ, zero, suc, ◌-◌, Bytes, Bool, true, false, ◌&&◌, ◌||◌, List, [], ◌∷◌, ◌++◌, ◌==◌, ltb, length,
  if◌then◌else◌,
}

-- strings.HasPrefix(s, prefix), the prefix first.
unfoldable pub has_prefix : Bytes → Bytes → Bool
has_prefix [] s = true
has_prefix (a ∷ p) [] = false
has_prefix (a ∷ p) (c ∷ s) = (a == c) && has_prefix p s

-- s[n:]
unfoldable pub drop : ℕ → Bytes → Bytes
drop zero s = s
drop (suc n) [] = []
drop (suc n) (c ∷ s) = drop n s

-- strings.TrimPrefix(s, prefix), the prefix first.
unfoldable pub trim_prefix : Bytes → Bytes → Bytes
unfolding has_prefix drop
trim_prefix p s = if has_prefix p s then drop (length p) s else s

-- strings.Contains(s, sub), the part first.
unfoldable pub contains : Bytes → Bytes → Bool
unfolding has_prefix
contains sub [] = has_prefix sub []
contains sub (c ∷ s) = has_prefix sub (c ∷ s) || contains sub s

-- The scan of strings.Replace for a non-empty `old`: the number counts the bytes of a match that
-- are still to be passed over.
unfoldable pub replace_from : Bytes → Bytes → ℕ → Bytes → Bytes
unfolding has_prefix
replace_from old new skip [] = []
replace_from old new (suc skip) (c ∷ s) = replace_from old new skip s
replace_from old new zero (c ∷ s) = elim (has_prefix old (c ∷ s)) [
  | true ↦ new ++ replace_from old new (length old - 1) s
  | false ↦ c ∷ replace_from old new zero s
]

-- A byte that starts a character of valid UTF-8.
unfoldable pub starts_rune : ℕ → Bool
starts_rune c = ltb c 128 || ltb 191 c

-- An empty `old` matches before every character and at the end.
unfoldable pub surround : Bytes → Bytes → Bytes
unfolding starts_rune
surround new [] = new
surround new (c ∷ s) = (if starts_rune c then new else []) ++ (c ∷ surround new s)

-- strings.Replace(s, old, new, -1), the text last.
unfoldable pub replace_all : Bytes → Bytes → Bytes → Bytes
unfolding replace_from surround
replace_all [] new s = surround new s
replace_all (a ∷ old) new s = replace_from (a ∷ old) new zero s
