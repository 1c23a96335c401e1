-- ===== src/Informer/Waiting.antt =====
-- Where the informer's Start ends, and where it does not.
use mathlib.Core.Bool.{true≢false}
use x_cluster_link.Base.{
  ◌≡◌, ◌≢◌, refl, sym, ap, subst, ◌∙◌, ◌⊎◌, inl, inr, Bool, true, false, Option, none, some, List,
  [], ◌∷◌, if◌then◌else◌,
}
use x_cluster_link.Kube.{Reply, answer, refuse}
use x_cluster_link.Informer.Start.{
  GatewayInformer, watched, Outside, Failure, Point, Process, Move, begin, give_back, connect,
  proceed, step, run,
}

module _ (O : Outside) (r : GatewayInformer O.RestConfig) where
  -- The libraries' errors that Start returns.
  abbrev pub IsRefused : O.Err → Type 0
  IsRefused e =
      (O.new_for_config r.config ≡ refuse e)
      ⊎ ((c : O.ClientSet) × (O.new_for_config r.config ≡ answer c)
          × (O.add_event_handler c watched ≡ refuse e))

module _ (O : Outside) (r : GatewayInformer O.RestConfig)
    (waits : (synced : Bool) → O.wait_for_cache_sync false synced ≢ some false) where
  -- What is known at each point, of the stop channel and of the goroutine.
  abbrev Fits : Point O → Bool → Bool → Type 0
  Fits Point.at_client stopped running = (stopped ≡ false) × (running ≡ false)
  Fits (Point.at_handler c) stopped running =
      (stopped ≡ false) × (running ≡ false) × (O.new_for_config r.config ≡ answer c)
  Fits Point.at_run stopped running = stopped ≡ false
  Fits Point.at_sync stopped running = stopped ≡ false
  Fits Point.at_stop stopped running = stopped ≡ false
  Fits (Point.returned x) stopped running =
      (e : O.Err) × (x ≡ some (Failure.library e)) × IsRefused O r e × (running ≡ false)

  abbrev IsFit : Process O → Type 0
  IsFit p = Fits p.point p.is_stopped p.is_running

  proceed-IsFit :
      (x : Point O) (p : Process O)
      → p.point ≡ x
      → Fits x p.is_stopped p.is_running
      → IsFit (proceed O r x p)
  unfolding proceed if◌then◌else◌
  proceed-IsFit Point.at_client p at (stop, idle) = connected (O.new_for_config r.config) refl
    where
      connected :
          (y : Reply O.Err O.ClientSet)
          → O.new_for_config r.config ≡ y
          → IsFit (elim y as (λ _. Process O) [
            | answer c ↦ record p { point = Point.at_handler c }
            | refuse e ↦ record p { point = Point.returned (some (Failure.library e)) }
          ])
      connected (answer c) e = (stop, idle, e)
      connected (refuse e) e' = (e, refl, inl e', idle)
  proceed-IsFit (Point.at_handler c) p at (stop, idle, made) =
      registered (O.add_event_handler c watched) refl
    where
      registered :
          (y : Reply O.Err (Unit {0}))
          → O.add_event_handler c watched ≡ y
          → IsFit (elim y as (λ _. Process O) [
            | answer _ ↦ record p { point = Point.at_run }
            | refuse e ↦ record p { point = Point.returned (some (Failure.library e)) }
          ])
      registered (answer _) e = stop
      registered (refuse e) e' = (e, refl, inr (c, made, e'), idle)
  proceed-IsFit Point.at_run p at stop = stop
  proceed-IsFit Point.at_sync p at stop =
      synced (O.wait_for_cache_sync p.is_stopped p.has_synced) refl
    where
      synced :
          (y : Option Bool)
          → O.wait_for_cache_sync p.is_stopped p.has_synced ≡ y
          → IsFit (elim y as (λ _. Process O) [
            | none ↦ p
            | some true ↦ record p { point = Point.at_stop }
            | some false ↦ give_back O (some Failure.not_synced) p
          ])
      synced none e = subst (λ x. Fits x p.is_stopped p.is_running) (sym at) stop
      synced (some true) e = stop
      synced (some false) e =
          absurd
            (waits p.has_synced (ap (λ b. O.wait_for_cache_sync b p.has_synced) (sym stop) ∙ e))
  proceed-IsFit Point.at_stop p at stop = stays p.is_stopped stop
    where
      stays : (b : Bool) → b ≡ false → IsFit (if b then give_back O none p else p)
      stays false e = subst (λ x. Fits x p.is_stopped p.is_running) (sym at) stop
      stays true e = absurd (true≢false e)
  proceed-IsFit (Point.returned x) p at h = subst (λ x. Fits x p.is_stopped p.is_running) (sym at) h

  step-IsFit : (m : Move O) (p : Process O) → IsFit p → IsFit (step O r m p)
  unfolding step
  step-IsFit Move.go p h = proceed-IsFit p.point p refl h
  step-IsFit Move.fill_cache p h = h
  step-IsFit Move.cancel p h = h

  run-IsFit : (ms : List (Move O)) (p : Process O) → IsFit p → IsFit (run O r ms p)
  unfolding run
  run-IsFit [] p h = h
  run-IsFit (m ∷ ms) p h = run-IsFit ms (step O r m p) (step-IsFit m p h)

  -- Whatever happens beside Start, and whenever, its context cancelled too: if it has returned, then
  -- with the error of the client or of the event handlers, before the informer ran. It never returns
  -- nil or "error syncing cache"; if WaitForCacheSync does not say that the program stops before the
  -- stop channel is closed.
  pub run-returned :
      (ms : List (Move O)) (x : Option (Failure O.Err))
      → (run O r ms (begin O)).point ≡ Point.returned x
      → (e : O.Err) × (x ≡ some (Failure.library e))
        × IsRefused O r e
        × ((run O r ms (begin O)).is_running ≡ false)
  run-returned ms x e =
      subst (λ y. Fits y (run O r ms (begin O)).is_stopped (run O r ms (begin O)).is_running) e
        (run-IsFit ms (begin O) (refl, refl))

module _ (O : Outside) (r : GatewayInformer O.RestConfig) where
  at_stop-run :
      (ms : List (Move O)) (p : Process O)
      → p.point ≡ Point.at_stop
      → p.is_stopped ≡ false
      → (run O r ms p).point ≡ Point.at_stop
  unfolding run step proceed if◌then◌else◌
  at_stop-run [] p at stop = at
  at_stop-run (Move.go ∷ ms) p at stop =
      ap (λ q. (run O r ms q).point)
        (ap (λ x. proceed O r x p) at ∙ ap (λ b. if b then give_back O none p else p) stop)
      ∙ at_stop-run ms p at stop
  at_stop-run (Move.fill_cache ∷ ms) p at stop =
      at_stop-run ms (record p { has_synced = true }) at stop
  at_stop-run (Move.cancel ∷ ms) p at stop =
      at_stop-run ms (record p { is_cancelled = true }) at stop

  abbrev filled : Process O
  filled = record {
    point = Point.at_stop;
    is_stopped = false;
    is_running = true;
    has_synced = true;
    is_cancelled = false;
  }

  -- A Start whose client and event handlers could be made, and whose cache is filled, waits for ever:
  -- whatever happens after that, its context cancelled too, it stays where it waits for the stop
  -- channel, which only its own return closes; if WaitForCacheSync goes on once the cache is filled.
  pub run-waits :
      (c : O.ClientSet)
      → O.new_for_config r.config ≡ answer c
      → O.add_event_handler c watched ≡ answer tt
      → O.wait_for_cache_sync false true ≡ some true
      → (ms : List (Move O))
      → (run O r (Move.go ∷ Move.go ∷ Move.go ∷ Move.fill_cache ∷ Move.go ∷ ms) (begin O)).point
        ≡ Point.at_stop
  unfolding run step proceed
  run-waits c made registered goes ms =
      ap (λ q. (run O r ms q).point) (ap rest (ap (step O r Move.go) connected ∙ handled) ∙ synced)
      ∙ at_stop-run ms filled refl refl
    where
      rest : Process O → Process O
      rest q = step O r Move.go (step O r Move.fill_cache (step O r Move.go q))

      at : Point O → Process O
      at x = record (begin O) { point = x }

      connected : step O r Move.go (begin O) ≡ at (Point.at_handler c)
      connected = rw (connect, made) refl

      handled : step O r Move.go (at (Point.at_handler c)) ≡ at Point.at_run
      handled = rw registered refl

      synced :
          step O r Move.go (step O r Move.fill_cache (step O r Move.go (at Point.at_run))) ≡ filled
      synced = rw goes refl
