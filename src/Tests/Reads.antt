-- ===== src/Tests/Reads.antt =====
-- A transcript that is stored, read in chunks of two characters, and deleted.
use open_transcribe_mcp.Base.{
  All, refl, ◌≡◌, ℕ, false, List, [], ◌∷◌, none, some, leb, if◌then◌else◌, ◌++◌, replicate, ◌%◌,
  ◌-◌, ◌+◌, length, arith,
}
use open_transcribe_mcp.Base.Float.{of_int}
use open_transcribe_mcp.Base.Text.{characters}
use open_transcribe_mcp.Base.Dict.{remove}
use open_transcribe_mcp.Domain.Errors.{ok}
use open_transcribe_mcp.Domain.Audio.{segment, clean}
use open_transcribe_mcp.Domain.Transcript.{CanonicalTranscript, TranscriptSegment}
use open_transcribe_mcp.ResultStore.Cursor.{Payload, encode, decode, equals_sign}
use open_transcribe_mcp.ResultStore.Cursor.RoundTrip.{decode-encode, decode-signed}
use open_transcribe_mcp.ResultStore.Chunks.{or_empty}
use open_transcribe_mcp.ResultStore.Chunks.Reading.{read_text, read_text_lem}
use open_transcribe_mcp.ResultStore.Memory.{MemoryStore, put, get}
use open_transcribe_mcp.ResultStore.Memory.Refined.{
  Call, IsBefore, stored, asked, deleted, replay, latest, until_deadline, answer-latest,
}
use open_transcribe_mcp.ResultStore.Memory.Lifetime.{not_found, answer, get-put}
use open_transcribe_mcp.Tests.Base64.{primitives, primitives-IsLawful}

abbrev transcript : CanonicalTranscript
transcript = record {
  transcript_id = "t1";
  provider = "microsoft";
  model = "MAI-Transcribe-2";
  source_duration_ms = some 60000;
  detected_languages = [];
  text = some (characters "hello");
  segments = none;
  usage = record { audio_seconds = none; estimated_provider_cost_usd = none };
  metadata = record {
    diarization = false;
    timestamps = segment;
    transcript_style = clean;
    provider_request_id = none;
    latency_ms = none;
    fallback_used = false;
    fallback_reason = none;
    fallback_history = [];
  };
  warnings = [];
}

abbrev secret : List ℕ
secret = 1 ∷ 2 ∷ 3 ∷ []

abbrev store : MemoryStore
store = record { ttl_seconds = 60; secret = secret; items = [] }

abbrev one_byte : TranscriptSegment → ℕ
one_byte s = 1

read_text_example :
    read_text primitives one_byte secret
      (length (or_empty transcript.text) + 1)
      transcript
      "t1"
      2
      none
    ≡ some (or_empty transcript.text)
read_text_example =
    read_text_lem primitives one_byte secret primitives-IsLawful transcript "t1" 2 (omega arith)
      (omega arith)

abbrev place : Payload
place = record { id = b'a' ∷ []; format = b't' ∷ []; index = 4 }

decode-encode_example : decode primitives secret (encode primitives secret place) ≡ ok place
decode-encode_example = decode-encode primitives primitives-IsLawful secret place

decode-signed_example :
    (body signature : List ℕ) × (primitives.b64decode (
        encode primitives secret place
        ++ replicate ((4 - length (encode primitives secret place) % 4) % 4) equals_sign)
      ≡ some (body ++ signature))
    × (signature ≡ primitives.digest secret body)
    × (primitives.loads body ≡ some (some place))
decode-signed_example =
    decode-signed primitives secret (encode primitives secret place) place
      (decode-encode primitives primitives-IsLawful secret place)

get-put_example : get (of_int 5) "t1" (put (of_int 1) transcript store) ≡ (
    if leb (of_int 1 + of_int 60) (of_int 5)
    then (
      record (put (of_int 1) transcript store) {
        items = remove "t1" (put (of_int 1) transcript store).items;
      },
      not_found,
    )
    else (put (of_int 1) transcript store, ok transcript))
get-put_example = get-put (of_int 1) (of_int 5) transcript store

-- Two transcripts that are put under one id, a read, and another id that is deleted; the last first.
abbrev calls : List Call
calls = asked 9 "t1" ∷ deleted "t2" ∷ stored 1 transcript ∷ stored 0 transcript ∷ []

calls-IsBefore : All (IsBefore 9) calls
unfolding IsBefore
calls-IsBefore = (omega arith, (tt, (tt, (tt, tt))))

answer-latest_example : answer 9 "t1" (replay calls store) ≡ until_deadline 9 (latest 60 "t1" calls)
answer-latest_example = answer-latest 9 "t1" calls store refl calls-IsBefore
