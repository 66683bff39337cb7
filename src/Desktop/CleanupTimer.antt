-- ===== src/Desktop/CleanupTimer.antt =====
-- desktop/cleanup_timer.py: the units of the cleanup timer. The packaged units and what systemctl
-- answers are arguments; the unit directory can be written.
use open_transcribe_mcp.Base.{
  String, Bool, true, not, Option, none, some, List, [], ◌∷◌, if◌then◌else◌,
}
use open_transcribe_mcp.Domain.Audio.{is_given}
use open_transcribe_mcp.Desktop.Errors.{Try, done, raised, fail, temp_audio_unavailable}

abbrev pub service_name : String
service_name = "open-transcribe-cleanup.service"

abbrev pub timer_name : String
timer_name = "open-transcribe-cleanup.timer"

pub record CleanupTimer : Type 0 where
  pub available : Bool
  pub packaged_unit : String → Option String
  pub systemctl : List String → Bool

-- The two files of `unit_dir`.
pub record Units : Type 0 where
  pub service : Option String
  pub timer : Option String

unfoldable pub installed : Units → Bool
unfolding is_given
installed u = is_given u.timer

unfoldable pub required_unit : Option String → Try String
required_unit (some unit) = done unit
required_unit none =
    fail temp_audio_unavailable "The packaged cleanup units are missing."
      (some "Reinstall the OpenTranscribe Setup package.")

install_timer : Units → Try String → Units × Try (Unit {0})
install_timer u (raised f) = (u, raised f)
install_timer u (done unit) = (record u { timer = some unit }, done tt)

install_units : CleanupTimer → Units → Try String → Units × Try (Unit {0})
unfolding install_timer required_unit
install_units t u (raised f) = (u, raised f)
install_units t u (done unit) =
    install_timer (record u { service = some unit }) (required_unit (t.packaged_unit timer_name))

-- What systemctl answers to the reload and to the start is not read.
unfoldable pub install : CleanupTimer → Units → Units × Try (Unit {0})
unfolding install_units required_unit
install t u =
    if not t.available
    then (
      u,
      fail temp_audio_unavailable
          "This session cannot run the cleanup timer, so temporary audio processing cannot expire reliably and stays unavailable."
          (some "Choose a model that can fetch the audio URL itself."),
    )
    else install_units t u (required_unit (t.packaged_unit service_name))

unfoldable pub remove : CleanupTimer → Units → Units × Bool
unfolding installed
remove t u = if not (installed u) then (u, true) else (
  record { service = none; timer = none },
  (if t.available then t.systemctl ("disable" ∷ "--now" ∷ timer_name ∷ []) else true),
)
