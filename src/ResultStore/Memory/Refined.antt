-- ===== src/ResultStore/Memory/Refined.antt =====
-- The store in memory as its clients see it: what is read is the last transcript that was put.
use open_transcribe_mcp.Base.{
  ℕ, ◌+◌, ◌≤◌, String, ◌≡◌, ◌≢◌, refl, ap, sym, ◌∙◌, Bool, true, false, Option, none, some, List,
  [], ◌∷◌, All, leb, if◌then◌else◌, str_eq, eq_iff, Bool-cases, inl, inr,
}
use open_transcribe_mcp.Base.Float.{Float, of_int}
use open_transcribe_mcp.Base.Dict.{lookup}
use open_transcribe_mcp.Domain.Errors.{Result, ok}
use open_transcribe_mcp.Domain.Transcript.{CanonicalTranscript}
use open_transcribe_mcp.ResultStore.Memory.{MemoryStore, put, get, delete, found_item}
use open_transcribe_mcp.ResultStore.Memory.Lifetime.{
  not_found, answer, answer-put_ne, answer-get, answer-delete, get-put,
}

-- A call of the store, with the clock's reading.
pub data Call : Type 0 where
  stored : Float → CanonicalTranscript → Call
  asked : Float → String → Call
  deleted : String → Call

-- The calls that have been made, the last one first.
unfoldable pub replay : List Call → MemoryStore → MemoryStore
replay [] s = s
replay (stored now t ∷ calls) s = put now t (replay calls s)
replay (asked now k ∷ calls) s = (get now k (replay calls s)).0
replay (deleted k ∷ calls) s = (delete k (replay calls s)).0

-- The last transcript that was put under an id and not deleted since, with its deadline.
unfoldable pub latest : ℕ → String → List Call → Option (Float × CanonicalTranscript)
latest ttl k [] = none
latest ttl k (stored now t ∷ calls) =
    if str_eq t.transcript_id k then some (now + of_int ttl, t) else latest ttl k calls
latest ttl k (asked now j ∷ calls) = latest ttl k calls
latest ttl k (deleted j ∷ calls) = if str_eq j k then none else latest ttl k calls

unfoldable pub until_deadline :
    Float → Option (Float × CanonicalTranscript) → Result CanonicalTranscript
until_deadline now none = not_found
until_deadline now (some (deadline, t)) = if leb deadline now then not_found else ok t

-- The clock of a call has not passed `now`.
unfoldable pub IsBefore : Float → Call → Type 0
IsBefore now (stored at t) = Unit {0}
IsBefore now (asked at k) = at ≤ now
IsBefore now (deleted k) = Unit {0}

-- No call changes the time to live.
found_item-ttl :
    (now : Float) (k : String) (item : Option (Float × CanonicalTranscript)) (s : MemoryStore)
    → (found_item now k item s).0.ttl_seconds ≡ s.ttl_seconds
unfolding found_item
found_item-ttl now k none s = refl
found_item-ttl now k (some (deadline, t)) s = elim (Bool-cases (leb deadline now)) [
  | inl over ↦ rw over refl
  | inr alive ↦ rw alive refl
]

replay-ttl : (calls : List Call) (s : MemoryStore) → (replay calls s).ttl_seconds ≡ s.ttl_seconds
unfolding replay put get delete
replay-ttl [] s = refl
replay-ttl (stored now t ∷ calls) s = replay-ttl calls s
replay-ttl (asked now k ∷ calls) s = found_item-ttl now k _ (replay calls s) ∙ replay-ttl calls s
replay-ttl (deleted k ∷ calls) s = replay-ttl calls s

true_ne_false : true ≢ false
true_ne_false e = cc

abbrev second : MemoryStore × Result CanonicalTranscript → Result CanonicalTranscript
second q = q.1

answered :
    (b : Bool) (s s' : MemoryStore) (x y : Result CanonicalTranscript)
    → second (if b then (s, x) else (s', y)) ≡ (if b then x else y)
answered true s s' x y = refl
answered false s s' x y = refl

answer-put :
    (start now : Float) (t : CanonicalTranscript) (s : MemoryStore)
    → answer now t.transcript_id (put start t s)
      ≡ until_deadline now (some (start + of_int s.ttl_seconds, t))
unfolding until_deadline
answer-put start now t s =
    ap second (get-put start now t s) ∙ answered (leb (start + of_int s.ttl_seconds) now) _ _ _ _

-- After any calls of a store that was empty, what is read at a time that no earlier call has passed
-- is the last transcript that was put under the id and not deleted since, until its time to live is
-- over; so reads change nothing, expired items are never seen, and ids do not meet.
pub answer-latest :
    (now : Float) (k : String) (calls : List Call) (s : MemoryStore)
    → s.items ≡ []
    → All (IsBefore now) calls
    → answer now k (replay calls s) ≡ until_deadline now (latest s.ttl_seconds k calls)
unfolding replay latest IsBefore until_deadline get found_item lookup
answer-latest now k [] s empty h = ap (λ items. (found_item now k (lookup k items) s).1) empty
answer-latest now k (stored at t ∷ calls) s empty (b, h) =
    elim (Bool-cases (str_eq t.transcript_id k)) [
      | inl same ↦ rw same (
          ap (λ x. answer now x (put at t (replay calls s)))
            (sym ((eq_iff t.transcript_id k).0 same))
          ∙ answer-put at now t (replay calls s)
          ∙ ap (λ n. until_deadline now (some (at + of_int n, t))) (replay-ttl calls s))
      | inr apart ↦ rw apart (
          answer-put_ne at now t k (replay calls s)
            (λ e. true_ne_false (sym ((eq_iff t.transcript_id k).1 e) ∙ apart))
          ∙ answer-latest now k calls s empty h)
    ]
answer-latest now k (asked at j ∷ calls) s empty (b, h) =
    answer-get at now j k (replay calls s) b ∙ answer-latest now k calls s empty h
answer-latest now k (deleted j ∷ calls) s empty (b, h) = elim (Bool-cases (str_eq j k)) [
  | inl same ↦ answer-delete now j k (replay calls s) ∙ rw same refl
  | inr apart ↦
      answer-delete now j k (replay calls s) ∙ rw apart (answer-latest now k calls s empty h)
]
