-- ===== src/Routing/Reported.antt =====
-- Which warnings the candidates of a route carry: one for each capability that their model lacks.
use mathlib.Core.List.{Memᴰ}
use open_transcribe_mcp.Base.{String, ◌≡◌, Option, none, some, List, All}
use open_transcribe_mcp.Base.Text.{◌+s◌}
use open_transcribe_mcp.Domain.Errors.{ok}
use open_transcribe_mcp.Domain.Audio.{TranscribeAudioRequest}
use open_transcribe_mcp.Domain.Capabilities.{ModelDescriptor}
use open_transcribe_mcp.Routing.Candidate.{RouteCandidate, candidate, missing_capabilities}
use open_transcribe_mcp.Routing.Route.{Router, route}
use open_transcribe_mcp.Routing.Steps.{route-IsRouted, IsRouted-All, AtExplicit}
use open_transcribe_mcp.Base.Members.{All-Mem, Mem-map, map-Mem, All-always}
use open_transcribe_mcp.Routing.Lacking.{Lacks, missing-Lacks, Lacks-missing}

-- A candidate's warnings are those of the capabilities that its model lacks.
pub IsReported : TranscribeAudioRequest → RouteCandidate → Type 0
IsReported request x =
    ((w : String)
      → Memᴰ w x.warnings
      → (name : String) × (w ≡ "requested_capability_not_supported:" +s name)
        × Lacks request x.model name)
    × ((name : String)
        → Lacks request x.model name
        → Memᴰ ("requested_capability_not_supported:" +s name) x.warnings)

candidate-IsReported :
    (request : TranscribeAudioRequest) (m : ModelDescriptor)
    → IsReported request (candidate request m (missing_capabilities request m))
unfolding candidate IsReported
candidate-IsReported request m = (
  λ w k.
      let (name, e, found) = Mem-map _ (missing_capabilities request m) w k in
      (name, e, All-Mem _ _ (missing-Lacks request m) name found),
  λ name k. map-Mem _ _ name (Lacks-missing request m name k),
)

explicit-IsReported :
    (request : TranscribeAudioRequest) (explicit : Option ModelDescriptor)
    → AtExplicit (IsReported request) request explicit
explicit-IsReported request none = tt
explicit-IsReported request (some m) = candidate-IsReported request m

-- Whatever the flags and the routing policy, the warnings of each candidate of a route name exactly
-- the capabilities that the request asks for and the candidate's own model lacks: each warning is
-- of such a capability, and each such capability has its warning. Nothing else is warned of, the
-- age of a price included.
pub route-IsReported :
    (r : Router) (request : TranscribeAudioRequest) (cs : List RouteCandidate)
    → route r request ≡ ok cs
    → All (IsReported request) cs
route-IsReported r request cs e =
    let routed = route-IsRouted r request cs e in
    IsRouted-All (IsReported request) r request cs routed
      (All-always _ routed.selection.models (λ m. candidate-IsReported request m))
      (explicit-IsReported request routed.selection.explicit)
