-- ===== src/ResultStore/Chunks.antt =====
-- result_store/chunks.py: one chunk of a transcript. The size of a segment is the length of its
-- JSON text, an argument.
pub mod Reading
use Prim.Native.Char.{Char}
use open_transcribe_mcp.Base.{
  ℕ, ◌+◌, String, Bool, true, false, not, ◌&&◌, ◌||◌, Option, none, some, List, [], ◌∷◌, ◌++◌, leb,
  ltb, length, take, drop, str_eq, if◌then◌else◌,
}
use open_transcribe_mcp.Base.Text.{codes, codes_eq}
use open_transcribe_mcp.Base.Sequences.{is_nonempty}
use open_transcribe_mcp.Domain.Errors.{Result, ok, raise, result_not_found, ◌>>=◌}
use open_transcribe_mcp.Domain.Transcript.{
  CanonicalTranscript, TranscriptSegment, TranscriptChunk, ChunkContent, text_content,
  segment_content,
}
use open_transcribe_mcp.ResultStore.Cursor.{Payload, Primitives, encode, decode}

-- x or []
abbrev pub or_empty {ℓ} : {A : Type ℓ} → Option (List A) → List A
or_empty none = []
or_empty (some xs) = xs

-- payload.get("id") != transcript_id or payload.get("format") != format
unfoldable pub belongs : Payload → String → String → Bool
unfolding codes_eq
belongs payload transcript_id format =
    codes_eq payload.id (codes transcript_id) && codes_eq payload.format (codes format)

unfoldable pub check_payload : String → String → Payload → Result ℕ
unfolding belongs
check_payload transcript_id format payload =
    if not (belongs payload transcript_id format)
    then raise result_not_found "The cursor does not belong to this transcript."
    else ok payload.index

module _ (p : Primitives) (segment_size : TranscriptSegment → ℕ) (secret : List ℕ) where
  -- The index that a cursor stands for; `None` and the empty text start at 0.
  unfoldable pub start_index : String → String → Option (List ℕ) → Result ℕ
  unfolding check_payload
  start_index transcript_id format none = ok 0
  start_index transcript_id format (some []) = ok 0
  start_index transcript_id format (some (c ∷ cs)) =
      decode p secret (c ∷ cs) >>= check_payload transcript_id format

  unfoldable pub make_chunk : String → String → ChunkContent → ℕ → Bool → TranscriptChunk
  make_chunk transcript_id format content next_index done = record {
    content = content;
    next_cursor =
        if done
        then none
        else some (
            encode p secret
              (record { id = codes transcript_id; format = codes format; index = next_index }));
    done = done;
  }

  unfoldable pub text_chunk : List Char → String → ℕ → ℕ → TranscriptChunk
  unfolding make_chunk
  text_chunk text transcript_id max_chars index =
      let content = take max_chars (drop index text) in
      let next_index = index + length content in
      make_chunk transcript_id "text" (text_content content) next_index
        (leb (length text) next_index)

  -- The `while` loop, over the segments from `next_index` on.
  unfoldable pub collect :
      ℕ
      → List TranscriptSegment
      → ℕ
      → ℕ
      → List TranscriptSegment
      → Result (List TranscriptSegment × ℕ)
  unfolding is_nonempty
  collect max_chars selected used next_index [] = ok (selected, next_index)
  collect max_chars selected used next_index (s ∷ segments) =
      let size = segment_size s in
      let rest = collect max_chars (selected ++ s ∷ []) (used + size) (next_index + 1) segments in
      if is_nonempty selected && ltb max_chars (used + size)
      then ok (selected, next_index)
      else if not (is_nonempty selected) && ltb max_chars size
      then raise result_not_found "max_chars is smaller than the next serialized segment."
      else rest

  unfoldable pub segments_chunk : List TranscriptSegment → String → ℕ → ℕ → Result TranscriptChunk
  unfolding collect make_chunk
  segments_chunk segments transcript_id max_chars index =
      collect max_chars [] 0 index (drop index segments) >>= λ (selected, next_index). ok (
        make_chunk transcript_id "segments" (segment_content selected) next_index
          (leb (length segments) next_index))

  chunk_at : CanonicalTranscript → String → ℕ → String → ℕ → Result TranscriptChunk
  unfolding text_chunk segments_chunk
  chunk_at transcript transcript_id max_chars format index =
      if str_eq format "text"
      then ok (text_chunk (or_empty transcript.text) transcript_id max_chars index)
      else segments_chunk (or_empty transcript.segments) transcript_id max_chars index

  unfoldable pub get_chunk_from_transcript :
      CanonicalTranscript → String → Option (List ℕ) → ℕ → String → Result TranscriptChunk
  unfolding chunk_at start_index
  get_chunk_from_transcript transcript transcript_id cursor max_chars format =
      if not (str_eq format "text" || str_eq format "segments")
      then raise result_not_found "Chunk format must be text or segments."
      else if not (leb 1 max_chars && leb max_chars 50000)
      then raise result_not_found "max_chars must be between 1 and 50000."
      else start_index transcript_id format cursor
        >>= chunk_at transcript transcript_id max_chars format
