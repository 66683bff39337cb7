-- ===== src/ResultStore/Chunks/Reading.antt =====
-- Reading a text chunk by chunk, as a client does that follows the cursors.
use Prim.Native.Char.{Char}
use open_transcribe_mcp.Base.{
  ℕ, zero, suc, ◌+◌, ◌-◌, ◌≤◌, ◌<◌, String, ◌≡◌, ◌≢◌, refl, sym, ◌∙◌, ap, true, false, Option, none,
  some, List, [], ◌∷◌, ◌++◌, leb, ◌&&◌, length, take, drop, arith, length-take, length-drop,
  drop-drop, take-append-drop, Bool-cases, inl, inr, leb→le,
}
use open_transcribe_mcp.Base.Text.{codes}
use open_transcribe_mcp.Domain.Errors.{Result, ok, err, ◌>>=◌}
use open_transcribe_mcp.Domain.Transcript.{
  CanonicalTranscript, TranscriptSegment, TranscriptChunk, ChunkContent, text_content,
  segment_content,
}
use open_transcribe_mcp.ResultStore.Cursor.{Primitives, IsLawful, encode, decode}
use open_transcribe_mcp.ResultStore.Cursor.RoundTrip.{decode-encode, encode-nonempty, codes_eq_refl}
use open_transcribe_mcp.ResultStore.Chunks.{
  or_empty, start_index, check_payload, text_chunk, get_chunk_from_transcript,
}

pub take-all {ℓ} : {A : Type ℓ} (n : ℕ) (xs : List A) → length xs ≤ n → take n xs ≡ xs
take-all zero [] h = refl
take-all zero (x ∷ xs) h = absurd (omega arith)
take-all (suc n) [] h = refl
take-all (suc n) (x ∷ xs) h = ap (λ ys. x ∷ ys) (take-all n xs (omega arith))

abbrev text_of : ChunkContent → List Char
text_of (text_content text) = text
text_of (segment_content segments) = []

prefix : List Char → Option (List Char) → Option (List Char)
prefix text none = none
prefix text (some rest) = some (text ++ rest)

extend : (List ℕ → Option (List Char)) → List Char → Option (List ℕ) → Option (List Char)
unfolding prefix
extend next text none = some text
extend next text (some cursor) = prefix text (next cursor)

follow : (List ℕ → Option (List Char)) → Result TranscriptChunk → Option (List Char)
unfolding extend
follow next (err e) = none
follow next (ok chunk) = extend next (text_of chunk.content) chunk.next_cursor

module _ (p : Primitives) (segment_size : TranscriptSegment → ℕ) (secret : List ℕ) where
  -- A client asks for chunks until there is no further cursor; `none` if a call fails or if
  -- `fuel` calls are not enough.
  pub read_text : ℕ → CanonicalTranscript → String → ℕ → Option (List ℕ) → Option (List Char)
  read_text zero transcript transcript_id max_chars cursor = none
  read_text (suc fuel) transcript transcript_id max_chars cursor =
      follow (λ next. read_text fuel transcript transcript_id max_chars (some next))
        (get_chunk_from_transcript p segment_size secret transcript transcript_id cursor max_chars
          "text")

  leb-false : (a b : ℕ) → leb a b ≡ false → b < a
  leb-false a b h = ground arith

  in_range : (n : ℕ) → 1 ≤ n → n ≤ 50000 → (leb 1 n && leb n 50000) ≡ true
  in_range n low high = ground arith

  own_payload :
      (transcript_id format : String) (index : ℕ)
      → check_payload transcript_id format
          (record { id = codes transcript_id; format = codes format; index = index })
        ≡ ok index
  unfolding check_payload
  own_payload transcript_id format index =
      rw (codes_eq_refl (codes transcript_id), codes_eq_refl (codes format))

  nonempty_cursor :
      (transcript_id format : String) (cursor : List ℕ)
      → cursor ≢ []
      → start_index p segment_size secret transcript_id format (some cursor)
        ≡ (decode p secret cursor >>= check_payload transcript_id format)
  unfolding start_index
  nonempty_cursor transcript_id format [] h = absurd (h refl)
  nonempty_cursor transcript_id format (c ∷ cs) h = refl

  module _ (lawful : IsLawful p) where
    -- The cursor of a chunk is taken back at the index that it was made for.
    pub start_index-encode :
        (transcript_id format : String) (index : ℕ)
        → start_index p segment_size secret transcript_id format (
            some (
              encode p secret
                (record { id = codes transcript_id; format = codes format; index = index })))
          ≡ ok index
    unfolding start_index
    start_index-encode transcript_id format index =
        nonempty_cursor transcript_id format _ (encode-nonempty p lawful secret _)
        ∙ rw
            (decode-encode p lawful secret
              (record { id = codes transcript_id; format = codes format; index = index }))
            (own_payload transcript_id format index)

  get_text_chunk :
      (transcript : CanonicalTranscript) (transcript_id : String) (cursor : Option (List ℕ))
      (max_chars index : ℕ)
      → 1 ≤ max_chars
      → max_chars ≤ 50000
      → start_index p segment_size secret transcript_id "text" cursor ≡ ok index
      → get_chunk_from_transcript p segment_size secret transcript transcript_id cursor max_chars
          "text"
        ≡ ok (
            text_chunk p segment_size secret
              (or_empty transcript.text)
              transcript_id
              max_chars
              index)
  unfolding get_chunk_from_transcript
  get_text_chunk transcript transcript_id cursor max_chars index low high e =
      rw (in_range max_chars low high, e)

  module _ (lawful : IsLawful p) (transcript : CanonicalTranscript) (transcript_id : String)
      (max_chars : ℕ) (low : 1 ≤ max_chars) (high : max_chars ≤ 50000) where
    abbrev whole : List Char
    whole = or_empty transcript.text

    -- A chunk that is not the last one is full,
    full_chunk :
        (index : ℕ)
        → leb (length whole) (index + length (take max_chars (drop index whole))) ≡ false
        → length (take max_chars (drop index whole)) ≡ max_chars
    full_chunk index more = omega (
      arith,
      leb-false _ _ more,
      length-take max_chars (drop index whole),
      length-drop index whole,
    )

    -- so that the next one begins where it ends.
    next_part :
        (index : ℕ)
        → length (take max_chars (drop index whole)) ≡ max_chars
        → take max_chars (drop index whole)
            ++ drop (index + length (take max_chars (drop index whole))) whole
          ≡ drop index whole
    next_part index size =
        ap (λ n. take max_chars (drop index whole) ++ drop (index + n) whole) size
        ∙ ap (λ ys. take max_chars (drop index whole) ++ ys) (sym (drop-drop max_chars index whole))
        ∙ take-append-drop max_chars (drop index whole)

    read_text_from :
        (fuel index : ℕ) (cursor : Option (List ℕ))
        → length whole - index < fuel
        → start_index p segment_size secret transcript_id "text" cursor ≡ ok index
        → read_text fuel transcript transcript_id max_chars cursor ≡ some (drop index whole)
    unfolding read_text follow text_chunk
    read_text_from zero index cursor enough e = absurd (omega arith)
    read_text_from (suc fuel) index cursor enough e =
        ap (follow (λ next. read_text fuel transcript transcript_id max_chars (some next)))
          (get_text_chunk transcript transcript_id cursor max_chars index low high e)
        ∙ elim (Bool-cases
            (leb (length whole) (index + length (take max_chars (drop index whole))))) [
              | inl last ↦ rw last (
                  ap some (
                    take-all max_chars (drop index whole) (
                      omega (
                        arith,
                        leb→le _ _ last,
                        length-take max_chars (drop index whole),
                        length-drop index whole,
                      ))))
              | inr more ↦
                  let size = full_chunk index more in
                  let later : length whole - (index + length (take max_chars (drop index whole)))
                      < fuel =
                    omega (arith, size, leb-false _ _ more) in
                  rw more (
                    ap (prefix (take max_chars (drop index whole))) (
                      read_text_from fuel (index + length (take max_chars (drop index whole))) _
                        later
                        (start_index-encode lawful transcript_id "text"
                          (index + length (take max_chars (drop index whole)))))
                    ∙ ap some (next_part index size))
            ]

-- Reading a stored text chunk by chunk gives the text back, whole and in order, whatever the
-- transcript and its id, for every chunk size that the tool accepts; one call more than the text
-- has characters is enough to reach the end.
pub read_text_lem :
    (p : Primitives) (segment_size : TranscriptSegment → ℕ) (secret : List ℕ) (lawful : IsLawful p)
    (transcript : CanonicalTranscript) (transcript_id : String) (max_chars : ℕ)
    → 1 ≤ max_chars
    → max_chars ≤ 50000
    → read_text p segment_size secret
        (length (or_empty transcript.text) + 1)
        transcript
        transcript_id
        max_chars
        none
      ≡ some (or_empty transcript.text)
unfolding start_index
read_text_lem p segment_size secret lawful transcript transcript_id max_chars low high =
    read_text_from p segment_size secret lawful transcript transcript_id max_chars low high
      (length (or_empty transcript.text) + 1) 0 none (omega arith) refl
