-- ===== src/Routing/Strict.antt =====
-- Strict routing: every candidate honours what the request states.
use mathlib.Core.List.Memᴰ
use mathlib.Core.List.{Memᴰ}
use open_transcribe_mcp.Base.{
  ℕ, String, ◌≡◌, ◌≢◌, refl, sym, Bool, true, false, not, ◌&&◌, Option, none, some, List, [], ◌∷◌,
  ◌++◌, All, arith, Bool-cases, inl, inr, ◌≤◌, subst, if◌then◌else◌,
}
use open_transcribe_mcp.Base.Float.{Float, of_int}
use open_transcribe_mcp.Base.Text.{◌+s◌}
use open_transcribe_mcp.Base.Sequences.{is_nonempty}
use open_transcribe_mcp.Domain.Errors.{ok, err, Exception}
use open_transcribe_mcp.Domain.Audio.{
  TranscribeAudioRequest, TimestampMode, TranscriptStyle, is_given,
}
use open_transcribe_mcp.Domain.Capabilities.{ModelDescriptor}
use open_transcribe_mcp.Routing.Candidate.{
  RouteCandidate, candidate, resolve, missing_capabilities, note, has_mode, has_style,
  lacks_timestamps, lacks_style, bind_timestamps, bind_style, bind_diarization, is_true, too_long,
  is_preview,
}
use open_transcribe_mcp.Routing.Route.{
  Router, Selection, route, candidates_of, compatible_of, evaluate, with_explicit, or_downgraded,
}
use open_transcribe_mcp.Domain.Outcomes.{>>=-eq-ok, ok-injective, err-ne-ok}
use open_transcribe_mcp.Routing.Steps.{route-IsRouted, rank-All, empty-or-not, require_some-All}

append-eq-nil : (xs ys : List String) → xs ++ ys ≡ [] → (xs ≡ []) × (ys ≡ [])
append-eq-nil [] ys e = (refl, e)
append-eq-nil (x ∷ xs) ys e = cc

note-eq-nil : (b : Bool) (name : String) → note b name ≡ [] → b ≡ false
note-eq-nil true name e = cc
note-eq-nil false name e = refl

-- What the request states is what the model is asked for, and what it offers.
pub record Honours (request : TranscribeAudioRequest) (x : RouteCandidate) : Type 0 where
  pub diarization : (b : Bool) → request.diarization ≡ some b → x.request.diarization ≡ b
  pub timestamps :
      (t : TimestampMode)
      → request.timestamps ≡ some t
      → (x.request.timestamps ≡ t) × (has_mode t x.model.timestamp_modes ≡ true)
  pub style :
      (s : TranscriptStyle)
      → request.transcript_style ≡ some s
      → (x.request.transcript_style ≡ s) × (has_style s x.model.transcript_styles ≡ true)
  pub detection : request.language ≡ none → x.model.supports_language_detection ≡ true
  pub hints : request.phrase_hints ≢ [] → x.model.supports_phrase_hints ≡ true
  pub preview : is_preview x.model.lifecycle ≡ true → request.allow_preview_models ≡ true
  pub duration :
      (hint : Float) (limit : ℕ)
      → request.duration_seconds_hint ≡ some hint
      → x.model.max_audio_seconds ≡ some limit
      → limit ≢ 0
      → hint ≤ of_int limit
  pub silent : (name : String) → Memᴰ ("requested_capability_not_supported:" +s name) x.warnings → ⊥

seven-eq-nil :
    (a b c d e f g : List String)
    → a ++ (b ++ (c ++ (d ++ (e ++ (f ++ g))))) ≡ []
    → (a ≡ []) × (b ≡ []) × (c ≡ []) × (d ≡ []) × (e ≡ []) × (f ≡ []) × (g ≡ [])
seven-eq-nil a b c d e f g h =
    let (ha, h1) = append-eq-nil a (b ++ (c ++ (d ++ (e ++ (f ++ g))))) h in
    let (hb, h2) = append-eq-nil b (c ++ (d ++ (e ++ (f ++ g)))) h1 in
    let (hc, h3) = append-eq-nil c (d ++ (e ++ (f ++ g))) h2 in
    let (hd, h4) = append-eq-nil d (e ++ (f ++ g)) h3 in
    let (he, h5) = append-eq-nil e (f ++ g) h4 in
    let (hf, hg) = append-eq-nil f g h5 in (ha, hb, hc, hd, he, hf, hg)

-- What `missing_capabilities` found nothing of, test by test.
record Fits (request : TranscribeAudioRequest) (m : ModelDescriptor) : Type 0 where
  preview : (is_preview m.lifecycle && not request.allow_preview_models) ≡ false
  diarization : (is_true request.diarization && not m.supports_diarization) ≡ false
  timestamps : lacks_timestamps request.timestamps m.timestamp_modes ≡ []
  style : lacks_style request.transcript_style m.transcript_styles ≡ []
  detection : (not (is_given request.language) && not m.supports_language_detection) ≡ false
  hints : (is_nonempty request.phrase_hints && not m.supports_phrase_hints) ≡ false
  duration : too_long request.duration_seconds_hint m.max_audio_seconds ≡ false

missing-eq-nil-Fits :
    (request : TranscribeAudioRequest) (m : ModelDescriptor)
    → missing_capabilities request m ≡ []
    → Fits request m
unfolding missing_capabilities
missing-eq-nil-Fits request m e =
    let (preview', diarization', timestamps', style', detection', hints', duration') =
      seven-eq-nil
        (note (is_preview m.lifecycle && not request.allow_preview_models) "preview_model")
        (note (is_true request.diarization && not m.supports_diarization) "diarization")
        (lacks_timestamps request.timestamps m.timestamp_modes)
        (lacks_style request.transcript_style m.transcript_styles)
        (note (not (is_given request.language) && not m.supports_language_detection)
          "language_detection")
        (note (is_nonempty request.phrase_hints && not m.supports_phrase_hints) "phrase_hints")
        (note (too_long request.duration_seconds_hint m.max_audio_seconds) "max_audio_seconds") e in
    record {
      preview = note-eq-nil _ _ preview';
      diarization = note-eq-nil _ _ diarization';
      timestamps = timestamps';
      style = style';
      detection = note-eq-nil _ _ detection';
      hints = note-eq-nil _ _ hints';
      duration = note-eq-nil _ _ duration';
    }

timestamps-honoured :
    (asked : Option TimestampMode) (modes : List TimestampMode) (t : TimestampMode)
    → lacks_timestamps asked modes ≡ []
    → asked ≡ some t
    → (bind_timestamps asked modes ≡ t) × (has_mode t modes ≡ true)
unfolding lacks_timestamps bind_timestamps
timestamps-honoured none modes t e s = cc
timestamps-honoured (some u) modes t e s = elim (Bool-cases (has_mode u modes)) [
  | inl known ↦
      let same : u ≡ t = cc in rw known (same, subst (λ x. has_mode x modes ≡ true) same known)
  | inr unknown ↦ ground arith
]

style-honoured :
    (asked : Option TranscriptStyle) (styles : List TranscriptStyle) (t : TranscriptStyle)
    → lacks_style asked styles ≡ []
    → asked ≡ some t
    → (bind_style asked styles ≡ t) × (has_style t styles ≡ true)
unfolding lacks_style bind_style
style-honoured none styles t e s = cc
style-honoured (some u) styles t e s = elim (Bool-cases (has_style u styles)) [
  | inl known ↦
      let same : u ≡ t = cc in rw known (same, subst (λ x. has_style x styles ≡ true) same known)
  | inr unknown ↦ ground arith
]

diarization-honoured :
    (asked : Option Bool) (supported b : Bool)
    → (is_true asked && not supported) ≡ false
    → asked ≡ some b
    → bind_diarization asked supported ≡ b
unfolding is_true bind_diarization
diarization-honoured asked supported b e s = ground arith

duration-honoured :
    (asked : Option Float) (most : Option ℕ) (hint : Float) (limit : ℕ)
    → too_long asked most ≡ false
    → asked ≡ some hint
    → most ≡ some limit
    → limit ≢ 0
    → hint ≤ of_int limit
unfolding too_long
duration-honoured none most hint limit e s t n = cc
duration-honoured (some h) none hint limit e s t n = cc
duration-honoured (some h) (some l) hint limit e s t n = ground arith

hints-honoured :
    (given : List String) (supported : Bool)
    → (is_nonempty given && not supported) ≡ false
    → given ≢ []
    → supported ≡ true
unfolding is_nonempty
hints-honoured [] supported e n = absurd (n refl)
hints-honoured (x ∷ xs) supported e n = ground arith

detection-honoured :
    (given : Option String) (supported : Bool)
    → (not (is_given given) && not supported) ≡ false
    → given ≡ none
    → supported ≡ true
unfolding is_given
detection-honoured given supported e n = ground arith

preview-honoured : (p allowed : Bool) → (p && not allowed) ≡ false → p ≡ true → allowed ≡ true
preview-honoured p allowed e h = ground arith

candidate-Honours :
    (request : TranscribeAudioRequest) (m : ModelDescriptor)
    → missing_capabilities request m ≡ []
    → Honours request (candidate request m [])
unfolding candidate resolve
candidate-Honours request m e =
    let f = missing-eq-nil-Fits request m e in
    record {
      diarization =
          λ b. diarization-honoured request.diarization m.supports_diarization b f.diarization;
      timestamps = λ t. timestamps-honoured request.timestamps m.timestamp_modes t f.timestamps;
      style = λ s. style-honoured request.transcript_style m.transcript_styles s f.style;
      detection = detection-honoured request.language m.supports_language_detection f.detection;
      hints = hints-honoured request.phrase_hints m.supports_phrase_hints f.hints;
      preview = preview-honoured (is_preview m.lifecycle) request.allow_preview_models f.preview;
      duration = λ hint limit.
          duration-honoured request.duration_seconds_hint m.max_audio_seconds hint limit f.duration;
      silent = λ name. Memᴰ.not-nil;
    }

compatible_of-Honours :
    (request : TranscribeAudioRequest) (ms : List ModelDescriptor)
    → All (Honours request) (compatible_of request (evaluate request ms))
unfolding compatible_of evaluate is_nonempty
compatible_of-Honours request [] = tt
compatible_of-Honours request (m ∷ ms) = elim (empty-or-not (missing_capabilities request m)) [
  | inl fits ↦ rw fits (candidate-Honours request m fits, compatible_of-Honours request ms)
  | inr lacks ↦ rw lacks (compatible_of-Honours request ms)
]

if-strict :
    {A : Type 0} (b : Bool) (x : Exception) (y z : A)
    → b ≡ true
    → (if b then err x else ok y) ≡ ok z
    → ⊥
if-strict true x y z h e = err-ne-ok e
if-strict false x y z h e = cc

with_explicit-strict :
    (request : TranscribeAudioRequest) (explicit : Option ModelDescriptor)
    (cs ds : List RouteCandidate)
    → request.strict_capabilities ≡ true
    → with_explicit request explicit cs ≡ ok ds
    → ds ≡ cs
unfolding with_explicit
with_explicit-strict request none cs ds strict e = sym (ok-injective e)
with_explicit-strict request (some m) cs ds strict e =
    elim (Bool-cases (is_nonempty (missing_capabilities request m))) [
      | inl lacks ↦ absurd (if-strict request.strict_capabilities _ _ ds strict (rw lacks at e))
      | inr fits ↦ sym (ok-injective (rw fits at e))
    ]

or_downgraded-strict :
    (request : TranscribeAudioRequest) (evaluated : List (ModelDescriptor × List String))
    (cs : List RouteCandidate)
    → request.strict_capabilities ≡ true
    → or_downgraded request evaluated cs ≡ cs
unfolding or_downgraded
or_downgraded-strict request evaluated cs strict = ground arith

candidates_of-Honours :
    (request : TranscribeAudioRequest) (s : Selection) (cs : List RouteCandidate)
    → request.strict_capabilities ≡ true
    → candidates_of request s ≡ ok cs
    → All (Honours request) cs
unfolding candidates_of
candidates_of-Honours request s cs strict e =
    let evaluated = evaluate request s.models in
    let compatible = compatible_of request evaluated in
    let (ds, w, e') = >>=-eq-ok (with_explicit request s.explicit compatible) _ e in
    let same = with_explicit-strict request s.explicit compatible ds strict w in
    require_some-All (Honours request) request evaluated (or_downgraded request evaluated ds) cs
      (rw (or_downgraded-strict request evaluated ds strict)
        (rw same (compatible_of-Honours request s.models)))
      e'

-- A strict request is routed only to models that honour it: every candidate is asked for the
-- diarization, the timestamps and the style that the request states and offers them, detects the
-- language if none is stated, takes phrase hints if there are any, is a preview only if previews
-- are allowed, allows the stated duration, and carries no warning of a capability that is not
-- supported.
pub route-Honours :
    (r : Router) (request : TranscribeAudioRequest) (cs : List RouteCandidate)
    → request.strict_capabilities ≡ true
    → route r request ≡ ok cs
    → All (Honours request) cs
route-Honours r request cs strict e =
    let routed = route-IsRouted r request cs e in
    subst (All (Honours request)) routed.ranked (
      rank-All (Honours request) r request routed.selection routed.compatible
        (candidates_of-Honours request routed.selection routed.compatible strict routed.offered))
