-- ===== src/Domain/Transcript.antt =====
-- domain/transcript.py: the canonical transcript and the results of the tools.
use Prim.Native.Char.{Char}
use open_transcribe_mcp.Base.{ℕ, String, Bool, Option, List}
use open_transcribe_mcp.Base.Float.{Float}
use open_transcribe_mcp.Domain.Audio.{TimestampMode, TranscriptStyle}

pub record TranscriptWord : Type 0 where
  pub start_ms : Option ℕ
  pub end_ms : Option ℕ
  pub text : String
  pub confidence : Option Float

pub record TranscriptSegment : Type 0 where
  pub start_ms : Option ℕ
  pub end_ms : Option ℕ
  pub speaker : Option String
  pub language : Option String
  pub text : String
  pub words : Option (List TranscriptWord)

pub record UsageInfo : Type 0 where
  pub audio_seconds : Option Float
  pub estimated_provider_cost_usd : Option Float

pub record FallbackAttempt : Type 0 where
  pub provider : String
  pub model : String
  pub reason : String

pub record TranscriptionMetadata : Type 0 where
  pub diarization : Bool
  pub timestamps : TimestampMode
  pub transcript_style : TranscriptStyle
  pub provider_request_id : Option String
  pub latency_ms : Option ℕ
  pub fallback_used : Bool
  pub fallback_reason : Option String
  pub fallback_history : List FallbackAttempt

-- A cursor is given by its code points. The text is a list of characters, which is how the program measures and cuts it.
pub record CanonicalTranscript : Type 0 where
  pub transcript_id : String
  pub provider : String
  pub model : String
  pub source_duration_ms : Option ℕ
  pub detected_languages : List String
  pub text : Option (List Char)
  pub segments : Option (List TranscriptSegment)
  pub usage : UsageInfo
  pub metadata : TranscriptionMetadata
  pub warnings : List String

-- InlineTranscriptionResult carries the transcript whole, with the fixed fields `status` and
-- `result_mode` that the constructor stands for.
pub record StoredTranscriptionResult : Type 0 where
  pub transcript_id : String
  pub provider : String
  pub model : String
  pub text_chars : ℕ
  pub segment_count : ℕ
  pub warnings : List String

pub data TranscriptionResult : Type 0 where
  inline_result : CanonicalTranscript → TranscriptionResult
  stored_result : StoredTranscriptionResult → TranscriptionResult

pub data ChunkContent : Type 0 where
  text_content : List Char → ChunkContent
  segment_content : List TranscriptSegment → ChunkContent

pub record TranscriptChunk : Type 0 where
  pub content : ChunkContent
  pub next_cursor : Option (List ℕ)
  pub done : Bool

pub record DeleteResult : Type 0 where
  pub transcript_id : String
  pub deleted : Bool

pub record CostEstimate : Type 0 where
  pub provider : String
  pub model : String
  pub duration_seconds : Float
  pub estimated_cost_usd : Option Float
  pub pricing_valid_at : Option ℕ
  pub warnings : List String
