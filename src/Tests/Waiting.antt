-- ===== src/Tests/Waiting.antt =====
-- Starts of the informer with demo libraries.
use mathlib.Core.Bool.{true≢false}
use x_cluster_link.Base.{◌≡◌, ◌≢◌, refl, ap, String, Bool, true, false, Option, some, none, [], ◌∷◌}
use x_cluster_link.Kube.{answer, refuse}
use x_cluster_link.Informer.Start.{
  GatewayInformer, Outside, Failure, Point, Move, begin, proceed, step, run,
}
use x_cluster_link.Informer.Waiting.{IsRefused, run-returned, run-waits}

abbrev wait : Bool → Bool → Option Bool
wait _ true = some true
wait true false = some false
wait false false = none

abbrev libraries : Outside
libraries = record {
  RestConfig = Unit;
  ClientSet = Unit;
  Err = String;
  new_for_config = λ _. answer tt;
  add_event_handler = λ _ _. answer tt;
  wait_for_cache_sync = wait;
}

abbrev informer : GatewayInformer (Unit {0})
informer = record { cluster_id = "west"; config = tt }

-- The program is told to stop after the cache was filled.
run-waits_example :
    (run libraries informer
      (Move.go ∷ Move.go ∷ Move.go ∷ Move.fill_cache ∷ Move.go ∷ Move.cancel ∷ Move.go ∷ Move.go
        ∷ [])
      (begin libraries)).point
    ≡ Point.at_stop
run-waits_example =
    run-waits libraries informer tt refl refl refl (Move.cancel ∷ Move.go ∷ Move.go ∷ [])

-- The client cannot be made.
abbrev broken : Outside
broken = record libraries { new_for_config = λ _. refuse "no configuration" }

stops : Option Bool → Bool
stops none = true
stops (some b) = b

waits : (synced : Bool) → broken.wait_for_cache_sync false synced ≢ some false
unfolding stops
waits true e = true≢false (ap stops e)
waits false e = true≢false (ap stops e)

stopped_early :
    (run broken informer (Move.go ∷ Move.go ∷ []) (begin broken)).point
    ≡ Point.returned (some (Failure.library "no configuration"))
unfolding run step proceed
stopped_early = refl

broken_connection :
    (e : String) × (some (Failure.library "no configuration") ≡ some (Failure.library e))
    × IsRefused broken informer e
    × ((run broken informer (Move.go ∷ Move.go ∷ []) (begin broken)).is_running ≡ false)
broken_connection =
    run-returned broken informer waits (Move.go ∷ Move.go ∷ [])
      (some (Failure.library "no configuration")) stopped_early
