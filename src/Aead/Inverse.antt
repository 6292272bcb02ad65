-- ===== src/Aead/Inverse.antt =====
-- A loop over what another loop gave, where each entry is undone.
use vault_plugin_aead.Prelude.{
  none-ne-some, Bytes, Option, none, some, Outcome, ok, ◌≡◌, refl, arith, sym, ◌∙◌,
}
use vault_plugin_aead.GoMap.{GoMap, get}
use vault_plugin_aead.GoMap.Order.{IsMap}
use vault_plugin_aead.Value.{Value}
use vault_plugin_aead.Value.Each.{each}
use vault_plugin_aead.Aead.Each.{Answers, each-get, each-IsMap, each_total}

-- Two lookups that both miss, or hit related values.
pub data Both (R : Value → Value → Type 0) : Option Value → Option Value → Type 0 where
  neither : Both R none none
  each_has : {v v' : Value} → R v v' → Both R (some v) (some v')

abbrev Undone :
    (Value → Value → Type 0) → (Bytes → Value → Outcome Value) → Bytes → Value → Value → Type 0
Undone R g k c v = (v' : Value) × (g k c ≡ ok v') × R v v'

module _ (R : Value → Value → Type 0) (f g : Bytes → Value → Outcome Value) where
  answer-Undone :
      (k : Bytes) (o o' : Option Value) (c : Value)
      → Answers f k o o'
      → o' ≡ some c
      → ((v c : Value) → o ≡ some v → f k v ≡ ok c → Undone R g k c v)
      → (v : Value) × (o ≡ some v) × Undone R g k c v
  answer-Undone k none o' c a e h = absurd (none-ne-some (sym a ∙ e))
  answer-Undone k (some v) o' c (c', r, q) e h = (v, refl, h v c refl ground arith)

  answer-Both :
      (k : Bytes) (o o' o'' : Option Value)
      → Answers f k o o'
      → Answers g k o' o''
      → ((v c : Value) → o ≡ some v → f k v ≡ ok c → Undone R g k c v)
      → Both R o o''
  answer-Both k none o' o'' a b h = let b' : o'' ≡ none = rw a at b in rw b' neither
  answer-Both k (some v) o' o'' a b h =
      let (c, e, q) = a in
      let (v', u, r) = h v c refl e in
      let b' : Answers g k (some c) o'' = rw q at b in
      let (c', u', q') = b' in let s : c' ≡ v' = ground arith in rw (q', s) (each_has r)

  -- `resp` stands for what is received of the results `sent`, in whatever order.
  pub each-Undone :
      (raw sent resp : GoMap Value)
      → IsMap raw
      → IsMap resp
      → ((k : Bytes) → get k resp ≡ get k sent)
      → ((k : Bytes) (v c : Value) → get k raw ≡ some v → f k v ≡ ok c → Undone R g k c v)
      → each f raw ≡ ok sent
      → (back : GoMap Value) × (each g resp ≡ ok back)
        × IsMap back
        × ((k : Bytes) → Both R (get k raw) (get k back))
  each-Undone raw sent resp m m' q undo h =
      let (back, e) = each_total g resp m' (λ k c r.
        let (v, _, (v', e', _)) =
          answer-Undone k (get k raw) (get k sent) c (each-get f raw sent k h) (sym (q k) ∙ r)
            (undo k) in
        (v', e')) in
      (
        back,
        e,
        each-IsMap g resp back e m',
        λ k.
            answer-Both k (get k raw) (get k sent) (get k back) (each-get f raw sent k h)
              (rw (sym (q k)) (each-get g resp back k e)) (undo k),
      )
