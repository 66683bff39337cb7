-- ===== src/ResultStore/Memory.antt =====
-- result_store/memory.py and result_store/disabled.py. The clock's reading is an argument of each
-- call; a deadline is an exact sum here.
pub mod Lifetime
pub mod Refined
use open_transcribe_mcp.Base.{
  ℕ, ◌+◌, String, Bool, true, false, Option, none, some, List, [], ◌∷◌, leb, if◌then◌else◌,
}
use open_transcribe_mcp.Base.Float.{Float, of_int}
use open_transcribe_mcp.Base.Dict.{Dict, lookup, insert, remove}
use open_transcribe_mcp.Domain.Errors.{
  Result, ok, raise, result_not_found, result_store_disabled, ◌>>=◌,
}
use open_transcribe_mcp.Domain.Audio.{is_given}
use open_transcribe_mcp.Domain.Transcript.{
  CanonicalTranscript, TranscriptSegment, TranscriptChunk, DeleteResult,
}
use open_transcribe_mcp.ResultStore.Cursor.{Primitives}
use open_transcribe_mcp.ResultStore.Chunks.{get_chunk_from_transcript}

pub record MemoryStore : Type 0 where
  pub ttl_seconds : ℕ
  pub secret : List ℕ
  pub items : Dict (Float × CanonicalTranscript)

unfoldable pub put : Float → CanonicalTranscript → MemoryStore → MemoryStore
put now transcript s = record s {
  items = insert transcript.transcript_id (now + of_int s.ttl_seconds, transcript) s.items;
}

unfoldable pub found_item :
    Float
    → String
    → Option (Float × CanonicalTranscript)
    → MemoryStore
    → MemoryStore × Result CanonicalTranscript
found_item now transcript_id none s = (
  record s { items = remove transcript_id s.items },
  raise result_not_found "Transcript not found or expired.",
)
found_item now transcript_id (some (deadline, transcript)) s =
    if leb deadline now
    then (
      record s { items = remove transcript_id s.items },
      raise result_not_found "Transcript not found or expired.",
    )
    else (s, ok transcript)

-- `_get`: an expired item is dropped when it is asked for.
unfoldable pub get : Float → String → MemoryStore → MemoryStore × Result CanonicalTranscript
unfolding found_item
get now transcript_id s = found_item now transcript_id (lookup transcript_id s.items) s

unfoldable pub get_chunk :
    Primitives
    → (TranscriptSegment → ℕ)
    → Float
    → String
    → Option (List ℕ)
    → ℕ
    → String
    → MemoryStore
    → MemoryStore × Result TranscriptChunk
get_chunk p segment_size now transcript_id cursor max_chars format s =
    let (s', found) = get now transcript_id s in
    (
      s',
      found >>= λ transcript.
          get_chunk_from_transcript p segment_size s.secret transcript transcript_id cursor
            max_chars format,
    )

unfoldable pub delete : String → MemoryStore → MemoryStore × DeleteResult
unfolding is_given
delete transcript_id s = (
  record s { items = remove transcript_id s.items },
  record { transcript_id = transcript_id; deleted = is_given (lookup transcript_id s.items) },
)

-- DisabledResultStore: every call raises.
abbrev pub storage_disabled {ℓ} : {A : Type ℓ} → Result A
storage_disabled =
    raise result_store_disabled
      "Temporary result storage is disabled. Use inline mode or configure a result store."
