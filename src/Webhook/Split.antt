-- ===== src/Webhook/Split.antt =====
-- String.prototype.split after Array.prototype.join, which the webhook signatures go through
-- (apps/backend/src/utils/svix-signature.ts).
use event_media_platform.Prelude.{
  ℕ, ◌≡◌, refl, ap, ◌∙◌, Bool, true, false, not, List, [], ◌∷◌, ◌++◌, arith, ◌==◌, ==_refl, any,
  every,
}
use event_media_platform.Auth.Guard.{split, join}

-- A text without the separator.
abbrev pub is_free : ℕ → List ℕ → Bool
is_free sep text = not (any (λ c. c == sep) text)

split-free : (sep : ℕ) (text : List ℕ) → is_free sep text ≡ true → split sep text ≡ text ∷ []
unfolding split
split-free sep [] h = refl
split-free sep (c ∷ text) h =
    let other : (c == sep) ≡ false = ground arith in
    rw (split, other, split-free sep text (ground arith)) refl

split-first :
    (sep : ℕ) (text rest : List ℕ)
    → is_free sep text ≡ true
    → split sep (text ++ (sep ∷ rest)) ≡ text ∷ split sep rest
unfolding split
split-first sep [] rest h = rw (split, ==_refl sep) refl
split-first sep (c ∷ text) rest h =
    let other : (c == sep) ≡ false = ground arith in
    rw (split, other, split-first sep text rest (ground arith)) refl

-- Texts without the separator that are joined are split into the same texts.
pub split-join :
    (sep : ℕ) (text : List ℕ) (texts : List (List ℕ))
    → every (is_free sep) (text ∷ texts) ≡ true
    → split sep (join sep (text ∷ texts)) ≡ text ∷ texts
unfolding join
split-join sep text [] h = split-free sep text (ground arith)
split-join sep text (next ∷ texts) h =
    split-first sep text (join sep (next ∷ texts)) (ground arith)
    ∙ ap (λ rest. text ∷ rest) (split-join sep next texts (ground arith))
