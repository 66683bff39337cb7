-- ===== src/Routing/Capabilities.antt =====
-- What the candidates of a route ask of their models, and what they report.
use open_transcribe_mcp.Base.{
  String, ◌≡◌, refl, Bool, true, Option, none, some, List, [], ◌∷◌, All, arith, Bool-cases, inl,
  inr, ◌⊎◌,
}
use open_transcribe_mcp.Domain.Errors.{ok}
use open_transcribe_mcp.Domain.Audio.{
  TranscribeAudioRequest, TimestampMode, without, segment, word, TranscriptStyle, clean, verbatim,
}
use open_transcribe_mcp.Domain.Capabilities.{ModelDescriptor}
use open_transcribe_mcp.Routing.Candidate.{
  RouteCandidate, candidate, resolve, has_mode, has_style, preferred_mode, preferred_style,
  bind_timestamps, bind_style, bind_diarization,
}
use open_transcribe_mcp.Routing.Route.{Router, route}
use open_transcribe_mcp.Routing.Steps.{route-IsRouted, IsRouted-All, AtModel, AtExplicit}

All-always {ℓ κ} : {A : Type ℓ} (P : A → Type κ) (xs : List A) → ((x : A) → P x) → All P xs
All-always P [] h = tt
All-always P (x ∷ xs) h = (h x, All-always P xs h)

-- A model is asked only for what it offers.
pub record IsBound (x : RouteCandidate) : Type 0 where
  pub diarization : x.request.diarization ≡ true → x.model.supports_diarization ≡ true
  pub timestamps :
      (has_mode x.request.timestamps x.model.timestamp_modes ≡ true)
      ⊎ ((x.model.timestamp_modes ≡ []) × (x.request.timestamps ≡ without))
  pub style :
      (has_style x.request.transcript_style x.model.transcript_styles ≡ true)
      ⊎ ((x.model.transcript_styles ≡ []) × (x.request.transcript_style ≡ verbatim))

preferred_mode-bound :
    (modes : List TimestampMode)
    → (has_mode (preferred_mode modes) modes ≡ true)
      ⊎ ((modes ≡ []) × (preferred_mode modes ≡ without))
unfolding preferred_mode
preferred_mode-bound [] = inr (refl, refl)
preferred_mode-bound (without ∷ modes) = ground arith
preferred_mode-bound (segment ∷ modes) = inl refl
preferred_mode-bound (word ∷ modes) = ground arith

bind_timestamps-bound :
    (asked : Option TimestampMode) (modes : List TimestampMode)
    → (has_mode (bind_timestamps asked modes) modes ≡ true)
      ⊎ ((modes ≡ []) × (bind_timestamps asked modes ≡ without))
unfolding bind_timestamps
bind_timestamps-bound none modes = preferred_mode-bound modes
bind_timestamps-bound (some t) modes = elim (Bool-cases (has_mode t modes)) [
  | inl known ↦ rw known (inl known)
  | inr unknown ↦ rw unknown (preferred_mode-bound modes)
]

preferred_style-bound :
    (styles : List TranscriptStyle)
    → (has_style (preferred_style styles) styles ≡ true)
      ⊎ ((styles ≡ []) × (preferred_style styles ≡ verbatim))
unfolding preferred_style
preferred_style-bound [] = inr (refl, refl)
preferred_style-bound (clean ∷ styles) = inl refl
preferred_style-bound (verbatim ∷ styles) = ground arith

bind_style-bound :
    (asked : Option TranscriptStyle) (styles : List TranscriptStyle)
    → (has_style (bind_style asked styles) styles ≡ true)
      ⊎ ((styles ≡ []) × (bind_style asked styles ≡ verbatim))
unfolding bind_style
bind_style-bound none styles = preferred_style-bound styles
bind_style-bound (some s) styles = elim (Bool-cases (has_style s styles)) [
  | inl known ↦ rw known (inl known)
  | inr unknown ↦ rw unknown (preferred_style-bound styles)
]

bind_diarization-bound :
    (asked : Option Bool) (supported : Bool)
    → bind_diarization asked supported ≡ true
    → supported ≡ true
unfolding bind_diarization
bind_diarization-bound asked supported h = ground arith

candidate-IsBound :
    (request : TranscribeAudioRequest) (m : ModelDescriptor) (missing : List String)
    → IsBound (candidate request m missing)
unfolding candidate resolve
candidate-IsBound request m missing = record {
  diarization = bind_diarization-bound request.diarization m.supports_diarization;
  timestamps = bind_timestamps-bound request.timestamps m.timestamp_modes;
  style = bind_style-bound request.transcript_style m.transcript_styles;
}

explicit-IsBound :
    (request : TranscribeAudioRequest) (explicit : Option ModelDescriptor)
    → AtExplicit IsBound request explicit
explicit-IsBound request none = tt
explicit-IsBound request (some m) = candidate-IsBound request m _

-- No candidate of a route asks its model to diarize if the model cannot, nor for a timestamp mode
-- or a transcript style that the model does not list. (A model that lists none is asked for the
-- mode `none` or the style `verbatim`.)
pub route-IsBound :
    (r : Router) (request : TranscribeAudioRequest) (cs : List RouteCandidate)
    → route r request ≡ ok cs
    → All IsBound cs
route-IsBound r request cs e =
    let routed = route-IsRouted r request cs e in
    IsRouted-All IsBound r request cs routed
      (All-always (AtModel IsBound request) routed.selection.models
        (λ m. candidate-IsBound request m _))
      (explicit-IsBound request routed.selection.explicit)
