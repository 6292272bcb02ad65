-- ===== src/Text/Muting.antt =====
-- Replacing a text by stars leaves no occurrence of it, and makes none of another text.
use vault_plugin_aead.Prelude.{
  ℕ, zero, suc, ◌-◌, Bytes, true, false, [], ◌∷◌, ◌++◌, ◌≡◌, ◌≢◌, refl, arith, length, All,
  Bool-cases, inl, inr,
}
use vault_plugin_aead.Text.{has_prefix, contains, replace_from, replace_all}

abbrev pub stars : Bytes
stars = b'*' ∷ b'*' ∷ b'*' ∷ []

abbrev pub StarFree : Bytes → Type 0
StarFree = All (λ c. c ≢ b'*')

-- Key material that can be hidden: a non-empty text with no star, such as base64.
abbrev pub IsMaterial : Bytes → Type 0
IsMaterial v = (v ≢ []) × StarFree v

contains_star : (v t : Bytes) → IsMaterial v → contains v (b'*' ∷ t) ≡ contains v t
unfolding contains has_prefix
contains_star [] t h = absurd (h.0 refl)
contains_star (a ∷ v) t h = ground arith

contains-stars : (v t : Bytes) → IsMaterial v → contains v (stars ++ t) ≡ contains v t
contains-stars v t h =
    ground (
      arith,
      contains_star v t h,
      contains_star v (b'*' ∷ t) h,
      contains_star v (b'*' ∷ b'*' ∷ t) h,
    )

-- Up to the first star the scan copies its input.
has_prefix-replace_from :
    (old p s : Bytes)
    → StarFree p
    → has_prefix p (replace_from old stars zero s) ≡ true
    → has_prefix p s ≡ true
unfolding has_prefix replace_from
has_prefix-replace_from old [] s f h = refl
has_prefix-replace_from old (a ∷ p) [] f h = h
has_prefix-replace_from old (a ∷ p) (c ∷ s) f h =
    ground (arith, has_prefix-replace_from old p s f.1)

contains-tail : (v s : Bytes) (c : ℕ) → contains v (c ∷ s) ≡ false → contains v s ≡ false
unfolding contains
contains-tail v s c h = ground arith

contains-cons :
    (v s : Bytes) (c : ℕ)
    → has_prefix v (c ∷ s) ≡ false
    → contains v s ≡ false
    → contains v (c ∷ s) ≡ false
unfolding contains
contains-cons v s c h k = ground arith

has_prefix_of_contains :
    (v s : Bytes) (c : ℕ) → contains v (c ∷ s) ≡ false → has_prefix v (c ∷ s) ≡ false
unfolding contains
has_prefix_of_contains v s c h = ground arith

-- A byte that the scan copies starts no new occurrence of a star-free text.
has_prefix_copied :
    (old v s : Bytes) (c : ℕ)
    → IsMaterial v
    → has_prefix v (c ∷ s) ≡ false
    → has_prefix v (c ∷ replace_from old stars zero s) ≡ false
unfolding has_prefix
has_prefix_copied old [] s c m h = absurd (m.0 refl)
has_prefix_copied old (a ∷ v) s c m h = ground (arith, has_prefix-replace_from old v s m.1.1)

-- The three ways in which the scan goes on.
scan_skipped :
    (old s : Bytes) (n c : ℕ) → replace_from old stars (suc n) (c ∷ s) ≡ replace_from old stars n s
unfolding replace_from
scan_skipped old s n c = refl

scan_matched :
    (old s : Bytes) (c : ℕ)
    → has_prefix old (c ∷ s) ≡ true
    → replace_from old stars zero (c ∷ s) ≡ stars ++ replace_from old stars (length old - 1) s
unfolding replace_from
scan_matched old s c h = rw (h, replace_from)

scan_copied :
    (old s : Bytes) (c : ℕ)
    → has_prefix old (c ∷ s) ≡ false
    → replace_from old stars zero (c ∷ s) ≡ c ∷ replace_from old stars zero s
unfolding replace_from
scan_copied old s c h = rw (h, replace_from)

-- The scan makes no occurrence of a star-free text.
contains-replace_from :
    (old v : Bytes) (n : ℕ) (s : Bytes)
    → IsMaterial v
    → contains v s ≡ false
    → contains v (replace_from old stars n s) ≡ false
contains-replace_from old v n [] m h = unfold replace_from in h
contains-replace_from old v (suc n) (c ∷ s) m h =
    rw scan_skipped (contains-replace_from old v n s m (contains-tail v s c h))
contains-replace_from old v zero (c ∷ s) m h = elim (Bool-cases (has_prefix old (c ∷ s))) [
  | inl e ↦
      rw (scan_matched old s c e, contains-stars v _ m)
        (contains-replace_from old v (length old - 1) s m (contains-tail v s c h))
  | inr e ↦ rw (scan_copied old s c e) (
      contains-cons v _ c (has_prefix_copied old v s c m (has_prefix_of_contains v s c h))
        (contains-replace_from old v zero s m (contains-tail v s c h)))
]

-- No occurrence of the text that is replaced is left.
contains-replace_from_self :
    (v : Bytes) (n : ℕ) (s : Bytes) → IsMaterial v → contains v (replace_from v stars n s) ≡ false
contains-replace_from_self [] n s m = absurd (m.0 refl)
contains-replace_from_self (a ∷ v) n [] m = unfold replace_from contains has_prefix in refl
contains-replace_from_self (a ∷ v) (suc n) (c ∷ s) m =
    rw scan_skipped (contains-replace_from_self (a ∷ v) n s m)
contains-replace_from_self (a ∷ v) zero (c ∷ s) m = elim (Bool-cases (has_prefix (a ∷ v) (c ∷ s))) [
  | inl e ↦
      rw (scan_matched (a ∷ v) s c e, contains-stars (a ∷ v) _ m)
        (contains-replace_from_self (a ∷ v) (length (a ∷ v) - 1) s m)
  | inr e ↦ rw (scan_copied (a ∷ v) s c e) (
      contains-cons (a ∷ v) _ c (has_prefix_copied (a ∷ v) (a ∷ v) s c m e)
        (contains-replace_from_self (a ∷ v) zero s m))
]

pub contains-replace_all_self :
    (v s : Bytes) → IsMaterial v → contains v (replace_all v stars s) ≡ false
unfolding replace_all
contains-replace_all_self [] s m = absurd (m.0 refl)
contains-replace_all_self (a ∷ v) s m = contains-replace_from_self (a ∷ v) zero s m

pub contains-replace_all :
    (old v s : Bytes)
    → old ≢ []
    → IsMaterial v
    → contains v s ≡ false
    → contains v (replace_all old stars s) ≡ false
unfolding replace_all
contains-replace_all [] v s n m h = absurd (n refl)
contains-replace_all (a ∷ old) v s n m h = contains-replace_from (a ∷ old) v zero s m h
