-- ===== src/Routing/Offers.antt =====
-- Whether a model lists a timestamp mode or a style.
use mathlib.Core.List.Memᴰ
use mathlib.Core.List.{Memᴰ}
use open_transcribe_mcp.Base.{
  ◌≡◌, refl, sym, true, false, List, [], ◌∷◌, arith, Bool-cases, inl, inr,
}
use open_transcribe_mcp.Domain.Audio.{
  TimestampMode, without, segment, word, mode_eq, TranscriptStyle, verbatim, clean, style_eq,
}
use open_transcribe_mcp.Routing.Candidate.{has_mode, has_style}

mode_eq-eq : (a b : TimestampMode) → mode_eq a b ≡ true → a ≡ b
unfolding mode_eq
mode_eq-eq without without h = refl
mode_eq-eq without segment h = cc
mode_eq-eq without word h = cc
mode_eq-eq segment without h = cc
mode_eq-eq segment segment h = refl
mode_eq-eq segment word h = cc
mode_eq-eq word without h = cc
mode_eq-eq word segment h = cc
mode_eq-eq word word h = refl

mode_eq_self : (a : TimestampMode) → mode_eq a a ≡ true
unfolding mode_eq
mode_eq_self without = refl
mode_eq_self segment = refl
mode_eq_self word = refl

style_eq-eq : (a b : TranscriptStyle) → style_eq a b ≡ true → a ≡ b
unfolding style_eq
style_eq-eq verbatim verbatim h = refl
style_eq-eq verbatim clean h = cc
style_eq-eq clean verbatim h = cc
style_eq-eq clean clean h = refl

style_eq_self : (a : TranscriptStyle) → style_eq a a ≡ true
unfolding style_eq
style_eq_self verbatim = refl
style_eq_self clean = refl

pub absent-has_mode :
    (t : TimestampMode) (modes : List TimestampMode) → (Memᴰ t modes → ⊥) → has_mode t modes ≡ false
unfolding has_mode
absent-has_mode t [] h = refl
absent-has_mode t (n ∷ modes) h = elim (Bool-cases (mode_eq n t)) [
  | inl found ↦ absurd (h (Memᴰ.head (sym (mode_eq-eq n t found))))
  | inr other ↦ rw other (absent-has_mode t modes (λ k. h (Memᴰ.tail k)))
]

pub has_mode-absent :
    (t : TimestampMode) (modes : List TimestampMode) → has_mode t modes ≡ false → Memᴰ t modes → ⊥
unfolding has_mode
has_mode-absent t [] h k = Memᴰ.not-nil k
has_mode-absent t (n ∷ modes) h (Memᴰ.head e) =
    let same : mode_eq n t ≡ true = rw (← e) (mode_eq_self t) in cc
has_mode-absent t (n ∷ modes) h (Memᴰ.tail k) = has_mode-absent t modes (ground arith) k

pub absent-has_style :
    (t : TranscriptStyle) (styles : List TranscriptStyle)
    → (Memᴰ t styles → ⊥)
    → has_style t styles ≡ false
unfolding has_style
absent-has_style t [] h = refl
absent-has_style t (n ∷ styles) h = elim (Bool-cases (style_eq n t)) [
  | inl found ↦ absurd (h (Memᴰ.head (sym (style_eq-eq n t found))))
  | inr other ↦ rw other (absent-has_style t styles (λ k. h (Memᴰ.tail k)))
]

pub has_style-absent :
    (t : TranscriptStyle) (styles : List TranscriptStyle)
    → has_style t styles ≡ false
    → Memᴰ t styles
    → ⊥
unfolding has_style
has_style-absent t [] h k = Memᴰ.not-nil k
has_style-absent t (n ∷ styles) h (Memᴰ.head e) =
    let same : style_eq n t ≡ true = rw (← e) (style_eq_self t) in cc
has_style-absent t (n ∷ styles) h (Memᴰ.tail k) = has_style-absent t styles (ground arith) k
