-- ===== src/Desktop/Tempaudio.antt =====
-- desktop/tempaudio.py: which temporary audio files a sweep removes. The files' states, the clock,
-- the boot id and the table of processes are arguments.
pub mod Sweeps
use open_transcribe_mcp.Base.{
  ℕ, suc, ◌+◌, String, Bool, true, false, not, ◌&&◌, ◌||◌, Option, none, some, List, [], ◌∷◌, ltb,
  leb, ◌==◌, str_eq, if◌then◌else◌,
}
use open_transcribe_mcp.Base.Float.{Float}

-- claim.get("pid_start_ticks"): missing or null, a number, or something else.
pub data Ticks : Type 0 where
  unknown other : Ticks
  ticks : ℕ → Ticks

-- A field that has not the type the code asks for is `none`; so is a process id that is not above 0.
pub record OwnerClaim : Type 0 where
  pub boot_id : Option String
  pub expires_at : Option Float
  pub pid : Option ℕ
  pub pid_start_ticks : Ticks

-- The file beside the audio: missing, not to be read as JSON, JSON that is no object, or a claim.
pub data Meta : Type 0 where
  absent unreadable not_object : Meta
  claimed : OwnerClaim → Meta

-- What lstat says of the audio file.
pub data Stat : Type 0 where
  missing irregular : Stat
  regular : Float → Stat

-- Which of the two files can be removed before an OSError.
pub data Unlink : Type 0 where
  both audio_only neither : Unlink

pub record Entry : Type 0 where
  pub token : String
  pub stat : Stat
  pub meta : Meta
  pub unlink : Unlink

pub record SweepReport : Type 0 where
  pub removed : ℕ
  pub retained : ℕ
  pub failed : List String

pub record Area : Type 0 where
  pub ttl_seconds : Float
  pub now : Float
  pub boot : String
  pub process_start_ticks : ℕ → Option ℕ

unfoldable pub same_ticks : Ticks → ℕ → Bool
same_ticks unknown current = true
same_ticks other current = false
same_ticks (ticks expected) current = expected == current

unfoldable pub alive_as : Ticks → Option ℕ → Bool
unfolding same_ticks
alive_as expected none = false
alive_as expected (some current) = same_ticks expected current

unfoldable pub owner_alive : Area → Option ℕ → Ticks → Bool
unfolding alive_as
owner_alive area none expected = false
owner_alive area (some pid) expected = alive_as expected (area.process_start_ticks pid)

unfoldable pub is_boot : String → Option String → Bool
is_boot boot none = false
is_boot boot (some b) = str_eq b boot

unfoldable pub is_expired : Float → Option Float → Bool
is_expired now none = true
is_expired now (some expires_at) = leb expires_at now

unfoldable pub is_void : Area → Float → Meta → Bool
unfolding owner_alive is_boot is_expired
is_void area mtime absent = true
is_void area mtime unreadable = ltb (mtime + area.ttl_seconds) area.now
is_void area mtime not_object = true
is_void area mtime (claimed c) =
    not (is_boot area.boot c.boot_id)
    || is_expired area.now c.expires_at
    || not (owner_alive area c.pid c.pid_start_ticks)

unfoldable pub is_reclaimable : Area → Stat → Meta → Bool
unfolding is_void
is_reclaimable area missing meta = false
is_reclaimable area irregular meta = false
is_reclaimable area (regular mtime) meta = is_void area mtime meta

-- What is left of an entry whose removal is tried, and the report with it.
unfoldable pub remove_entry : Unlink → Entry → List Entry × SweepReport → List Entry × SweepReport
remove_entry both e (rest, report) = (rest, record report { removed = suc report.removed })
remove_entry audio_only e (rest, report) =
    (rest, record report { failed = e.token ∷ report.failed })
remove_entry neither e (rest, report) =
    (e ∷ rest, record report { failed = e.token ∷ report.failed })

abbrev pub retain : Entry → List Entry × SweepReport → List Entry × SweepReport
retain e (rest, report) = (e ∷ rest, record report { retained = suc report.retained })

-- The loop over the audio files; the second loop only removes claims without audio.
unfoldable pub sweep : Area → Bool → List Entry → List Entry × SweepReport
unfolding remove_entry is_reclaimable
sweep area expire_all [] = ([], record { removed = 0; retained = 0; failed = [] })
sweep area expire_all (e ∷ es) =
    let rest = sweep area expire_all es in
    if expire_all || is_reclaimable area e.stat e.meta
    then remove_entry e.unlink e rest
    else retain e rest

-- purge
unfoldable pub purge : Area → List Entry → List Entry × SweepReport
unfolding sweep
purge area es = sweep area true es
