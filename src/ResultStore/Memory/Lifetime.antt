-- ===== src/ResultStore/Memory/Lifetime.antt =====
-- How long a stored transcript can be read, and by which id.
use open_transcribe_mcp.Base.{
  ◌+◌, ◌≤◌, String, ◌≡◌, ◌≢◌, refl, arith, leb, if◌then◌else◌, str_eq, eq_iff,
}
use open_transcribe_mcp.Base.Float.{Float, of_int}
use open_transcribe_mcp.Base.Dict.{remove, lookup-insert, lookup-insert_self, lookup-remove}
use open_transcribe_mcp.Domain.Errors.{Result, ok, raise, result_not_found}
use open_transcribe_mcp.Domain.Transcript.{CanonicalTranscript}
use open_transcribe_mcp.ResultStore.Memory.{MemoryStore, put, get, delete}

abbrev pub not_found : Result CanonicalTranscript
not_found = raise result_not_found "Transcript not found or expired."

-- What the store answers at a time, which is all that a client sees of it.
abbrev pub answer : Float → String → MemoryStore → Result CanonicalTranscript
answer now transcript_id s = (get now transcript_id s).1

-- A transcript that was put at `start` is what `get` returns, and `get` leaves the store as it is,
-- until the time to live has passed; from then on it is not found, at every later time.
pub get-put :
    (start now : Float) (t : CanonicalTranscript) (s : MemoryStore)
    → get now t.transcript_id (put start t s) ≡ (
        if leb (start + of_int s.ttl_seconds) now
        then (
          record (put start t s) { items = remove t.transcript_id (put start t s).items },
          not_found,
        )
        else (put start t s, ok t))
unfolding get put
get-put start now t s = rw lookup-insert_self refl

-- Putting a transcript changes nothing for the readers of other ids.
pub answer-put_ne :
    (start now : Float) (t : CanonicalTranscript) (k : String) (s : MemoryStore)
    → t.transcript_id ≢ k
    → answer now k (put start t s) ≡ answer now k s
unfolding get put
answer-put_ne start now t k s h = ground (
  arith,
  eq_iff t.transcript_id k,
  lookup-insert t.transcript_id k (start + of_int s.ttl_seconds, t) s.items,
)

-- Asking for one id, and so dropping what has expired, changes no answer, now or later.
pub answer-get :
    (now later : Float) (k j : String) (s : MemoryStore)
    → now ≤ later
    → answer later j (get now k s).0 ≡ answer later j s
unfolding get
answer-get now later k j s h = ground (arith, lookup-remove k j s.items, eq_iff k j)

-- A deleted transcript is not found again, and every other id is answered as before.
pub answer-delete :
    (now : Float) (k j : String) (s : MemoryStore)
    → answer now j (delete k s).0 ≡ (if str_eq k j then not_found else answer now j s)
unfolding get delete
answer-delete now k j s = ground (arith, lookup-remove k j s.items, eq_iff k j)
